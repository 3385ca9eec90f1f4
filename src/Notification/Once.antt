-- ===== src/Notification/Once.antt =====
-- Proofs about one notification job and a row that was sent before it.
use order_saga.Prelude.{◌≡◌, String, ◌==◌, Option, some, find}
use order_saga.Notification.{NotificationRow, Notifications, sent}

-- The row of one order.
abbrev pub row_of : String → Notifications → Option NotificationRow
row_of o rows = find (λ r. r.order_id == o) rows

module _ (o : String) (r : NotificationRow) (is_sent : r.status ≡ sent) where
  Kept : Notifications → Type 0
  Kept rows = row_of o rows ≡ some r
