-- ===== src/Lib.antt =====
-- order-saga places orders over four services as a saga: a coordinator claims orders from its
-- table, calls four forward steps, and when one fails undoes those that succeeded.
--
-- Parts and files (paths from the repository's root):
--   Shared/Types, Errors, Retry, Db, Cache, Idempotency, Service, Http, Params model
--     packages/shared/src/types.ts, errors.ts, retry.ts, db.ts, cache.ts, idempotency.ts, service.ts,
--     http.ts. A function keeps its name in snake_case; a long one is cut where its `try` blocks and
--     statements are (runIdempotent: claim_key, perform, finish_work, release_claim).
--   Services/Order, Payment, Shipping, Inventory model the handlers of services/*/src/index.ts and
--     services/inventory/src/seed.ts, over the tables of db/02-services.sql.
--   Coordinator/Repository models services/coordinator/src/repository.ts over db/01-saga.sql, and
--     Coordinator/Saga models saga.ts, Coordinator/Ingest ingest.ts, Coordinator/Queries queries.ts,
--     Coordinator/Worker worker.ts and Coordinator/Api the routes of api.ts. Coordinator/Delivery puts a
--     coordinator's steps and a service together over a network that loses messages.
--   Notification models services/notification/src/notifier.ts, and Notification/Process index.ts.
--   Web/OrderList models the list of web/src/app/features/order-list/order-list.ts and its request in
--     web/src/app/core/api.ts.
--   Prelude holds the helpers and Examples the theorems at concrete values.
-- The coordinator calls a service through Http.call_step, which is a parameter's `fetch` under
-- Retry.with_retry; a service answers through Service.register_step, which runs its handler under
-- Idempotency.run_idempotent.
--
-- Asynchronous code is an action `Exec S A` (Shared/Exec): it takes the state to a result or a
-- thrown value, and to the state then. What can fail beside the code is an argument: the faults
-- of each statement of an idempotent call, of the notification job and of a load, of each
-- connection of a transaction, and the ticks of a saga, one for each query, which also say how
-- much time passes and whether the heartbeat fires.
--
-- What runs at the same time is cut at its awaits into turns, which a relation interleaves in any
-- order: the steps of a group (Coordinator/Saga/Turns), the calls of one operation at a service
-- (Shared/Idempotency/Together), the workers of the pool and the claim loop (Coordinator/Worker), and
-- the runs of the notifier (Notification/Process). The saga as a function runs the steps of a group
-- one after another, which is one of these interleavings. A transaction is one turn, its commit.
--
-- Loops are structural recursion: retries on the rounds that are left, a transaction on fuel that is
-- one more than its deadlock retries, which is enough, since the loop's own test ends it before. The
-- paging of the notifier runs on fuel that the caller gives, of which as much as there are pages is
-- enough. What interleaves is a relation, without a bound.
--
-- Choices. Texts are compared exactly, while the tables' collation ignores case. Quantities are
-- integers, those of a request too, with the range of the INT columns at the stock; amounts are
-- the texts that are sent, which the DECIMAL(12,2) columns round. Lengths of columns and foreign
-- keys are left out. IGNORE converts no value. Of an error message what a test reads is kept. A
-- random number is a fraction. Redis is a list of entries with expiry. Between the queries of a
-- saga no other process writes, but for the heartbeats. A commit that fails may have been
-- applied, and so may a statement of the notification job or of a load that throws; a statement
-- of an idempotent call that throws was not applied. A route of the API makes its query in one
-- statement, and a query parameter that is a number is a whole one.
--
-- Not modelled: the ingest route, configuration, start-up and cli of services/coordinator/src, the
-- health routes of the services, logging and environment, and of the web client the detail view, the
-- strip of counts and the templates.
pub mod Prelude
pub mod Shared
pub mod Services
pub mod Coordinator
pub mod Notification
pub mod Web
pub mod Examples
