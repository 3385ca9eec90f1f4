-- ===== src/Examples/Deliveries.antt =====
-- A step that is executed over a network that loses the first reply.
use order_saga.Prelude.{false, none, some, [], ◌∷◌}
use order_saga.Shared.Types.{forward, charge_payment, in_progress}
use order_saga.Shared.Cache.{cache_get, null_cache}
use order_saga.Shared.Idempotency.{Service, no_faults, default_options}
use order_saga.Shared.Idempotency.Growth.{IsCacheSound}
use order_saga.Shared.Idempotency.Retries.{IsOneRun}
use order_saga.Services.Payment.{Payments, charge_payment_handler}
use order_saga.Coordinator.Saga.{World, SagaDeps}
use order_saga.Coordinator.Delivery.{Net, Delivery, net_platform, unreachable, execute_again}
use order_saga.Coordinator.Delivery.Kept.{context_of}
use order_saga.Coordinator.Delivery.Once.{execute_again-at_most_once}
use order_saga.Examples.Values.{o_1, order_1, quiet}

abbrev arrives : Delivery
arrives = record {
  delay_ms = 10;
  lost = none;
  faults = no_faults;
  broken = none;
  reply_lost = none;
}

abbrev payments : Service Payments
payments = record { records = λ _. none; domain = λ _. none; cache = null_cache; clock = 100 }

-- The reply of the first request is lost, the second reaches the service and is answered.
abbrev lossy : Net Payments
lossy = record {
  service = payments;
  deliveries = record arrives { reply_lost = some unreachable } ∷ arrives ∷ [];
}

abbrev charging : SagaDeps (Net Payments)
charging = record {
  platform = net_platform (λ _. "2") (forward charge_payment) (charge_payment_handler none);
  instance_id = "a";
  service_urls = λ _. "http://localhost";
  step = record { timeout_ms = 100; max_attempts = 1; base_delay_ms = 1; max_delay_ms = 4 };
  lease_ttl_ms = 30;
}

abbrev coordinator : World (Net Payments)
coordinator = record {
  db = quiet.db;
  clock = 80;
  ticks = [];
  timer = none;
  attempts = 0;
  remote = lossy;
}

payments-IsCacheSound : IsCacheSound payments
unfolding cache_get
payments-IsCacheSound = record { hits = λ k d h. absurd (cc) }

execute_again-at_most_once_example :
    IsOneRun
      (context_of (forward charge_payment) o_1)
      default_options
      (charge_payment_handler none o_1)
      payments
      (execute_again
        (λ _. "2")
        (forward charge_payment)
        (charge_payment_handler none)
        charging
        (order_1 in_progress)
        false
        (coordinator ∷ coordinator ∷ [])
        lossy).service
execute_again-at_most_once_example =
    execute_again-at_most_once (λ _. "2") (forward charge_payment) (charge_payment_handler none)
      charging (order_1 in_progress) false (coordinator ∷ coordinator ∷ []) lossy
      payments-IsCacheSound
