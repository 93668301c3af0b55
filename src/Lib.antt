-- ===== src/Lib.antt =====
-- The order, stock, refund and compensation core of the commerce services, modelled and proved.
--
-- The program. The inventory service (services/inventory-service) reserves stock for an order
-- line, then confirms or cancels the reservation; it keeps its items in PostgreSQL, or in memory
-- when the database does not answer. The order service (services/order-service) resolves a checkout
-- against the catalog, reserves its lines, and stores the order; it is called back
-- when a payment succeeds or is cancelled: it settles the reservations of the order by calls to
-- the inventory service, queues a compensation task for each call that fails, and moves the order.
-- The worker (services/worker-service) claims the tasks that are due and repeats their calls,
-- later and later, until one succeeds or the task becomes a dead letter, on which an administrator
-- decides. The payment service (services/payment-service) refunds captured payments through a
-- provider, and keeps an inbox of the provider's webhooks. The logistics service
-- (services/logistics-service) keeps the shipments of orders and the events of each.
--
-- The parts and their files.
-- Base: texts (lists of character codes, with JavaScript's trim and test), maps with insertion
--   order (Base/Dict), integers (Base/Int), decimals (Base/Decimal), ordering of rows (Base/Sort),
--   and what a handler returns or throws (Base/Failure). A transaction that fails leaves the
--   database as it was.
-- Inventory: services/inventory-service/src/main.ts. Types has its data and the replay test of
--   reservation-idempotency.ts, Normalize the checks of a request's fields. Memory, with
--   Memory/Admin, is InventoryMemoryStore (try_reserve, confirm, cancel, release_reservation,
--   adjust_item): one state, and a function per method that returns the answer and the next state.
--   Ledger and Balance hold the lemmas on the reserved quantities, Settle those on one call, Sound
--   the runs of calls. Postgres, with Postgres/Admin, is InventoryRepository: one handler per
--   transaction over the rows of the tables. Contract states what a client may rely on, as a record
--   of operations on bookings by key with laws, and Memory/Refines that the memory store keeps it;
--   nothing of the kind is said of PostgreSQL, where a confirmation may be refused.
--   Memory/Lifecycle follows one booking over any calls.
-- Order: services/order-service/src/main.ts. State has assertOrderTransition and its neighbours,
--   Payments the payment callbacks (transitionPayment, applyInventoryTransition, transitionOrder)
--   for orders in PostgreSQL, and Manual the compensation that an administrator asks for
--   (manualQueueInventoryCompensation); Manual/Reused is about its idempotency keys. Request has
--   the checks of a request's fields, Trusted is
--   resolveTrustedCheckout with trusted-checkout.ts. Service is callInventory: a call is answered,
--   lost, or answered too late. Checkout is reserveInventory and cancelInventory on any inventory
--   service that keeps Inventory/Contract; AllOrNothing, Booked and Leaks below it are about what
--   it leaves. Orders has the orders and their rows, and Placement is
--   createMockOrder, of the controller and of OrderRepository, with checkout-idempotency.ts.
-- Compensation: Tasks is the upsert into compensation_tasks (services/order-service/src/main.ts),
--   Retry is nextRetryAt (packages/outbox-inbox/src/index.ts), Worker is CompensationWorker with
--   claimDueTasks, processTask, recordFailure and runOnce, and Letters has the decisions on dead
--   letters (services/worker-service/src/main.ts).
-- Payment: Refund is the claim of a refund and Refund/Settle what the provider's answers and
--   events do to it, and Refund/Summary what is shown of them
--   (services/payment-service/src/payment-refund.ts). Inbox, with Inbox/Lease, keeps the
--   provider's webhooks (services/payment-service/src/payment-webhook-inbox.ts). Transactions is
--   createTrackedPayment, recordCreated and markPaid (payment-transaction.ts beside it), and
--   Webhooks is processPaymentWebhookTask and runOnce (payment-webhook-worker.ts). Accept is the
--   handler that puts PayPal's webhooks into the inbox (paypal-webhook-handler.ts).
-- Logistics: Status and Request are services/logistics-service/src/fulfillment.ts; Memory and
--   Postgres are createShipment and updateShipmentStatus of LogisticsRepository in
--   services/logistics-service/src/main.ts. Trail is what the events of a shipment have to form.
-- Each component's tests and examples stand in its own module Tests.
--
-- How the code is represented. Amounts, times and versions are natural numbers, and quantities of
-- stock are integers, both without a bound; JavaScript's numbers and PostgreSQL's columns are
-- exact far beyond the quantities the services accept. A table is the list of its rows, in the
-- order of their creation, except the payment transactions that Refund reads, which are listed from
-- the newest on, and the lines of orders in Order/Payments, which are listed by their ids. Refund
-- and Transactions read the payment transactions each through its own row type.
-- ORDER BY and LIMIT are functions on those lists. Every loop runs over a list, so there is no
-- fuel. Identifiers from randomUUID, the clock, the answers of other services and of payment
-- providers, and whether a write succeeds are arguments. Two transactions on the same rows run one
-- after the other, as the row locks of the services make them, and one whose answer does not come
-- has been rolled back: a COMMIT whose answer alone is lost is left out.
--
-- Not modelled: the routes and the fallback between storages, the list queries, the payment
-- callbacks of orders in memory, mails, the PayPal client, the tracking of parcels, the other
-- services, the gateways and the user interfaces.
pub mod Base
pub mod Inventory
pub mod Order
pub mod Compensation
pub mod Payment
pub mod Logistics
