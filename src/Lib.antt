-- ===== src/Lib.antt =====
-- TicketHub sells tickets: purchases are checked and their seats locked (program service), a message
-- creates the order (order service), a payment channel reports payments (pay service), and unpaid
-- orders expire. This library models the core of these services and of the packages that they share,
-- and proves what they promise.
--
-- Parts and files, with the code that each models:
--   Errors, Errors/Grpc   pkg/errors: codes, errors as values, their way over a gRPC call
--   Idgen                 pkg/idgen: identifiers and order numbers (snowflake.go, order_number.go)
--   Sharding              pkg/sharding: where an order is stored (mod_router.go, order_router.go,
--                         mapping_router.go)
--   Lock, Lock/Memory     pkg/lock: the interface of a lock service (locker.go), memory_locker.go
--   Order                 app/order-service/internal: domain/order (Order/Domain),
--                         infrastructure/memory/order_repository.go (Order/Memory),
--                         application/order_command.go (Order/Commands),
--                         application/create_order_consumer.go and cancel_order_worker.go
--                         (Order/Workers), application/order_query.go (Order/Queries),
--                         application/compensation.go (Order/Compensation)
--   DelayQueue            pkg/delayqueue: messages that become available at a time (queue.go,
--                         memory_queue.go)
--   Pay                   app/pay-service/internal: application/pay.go, domain/pay and
--                         infrastructure/memory/payment_repository.go
--   Program               app/program-service/internal: domain/program, application/program_pricing.go,
--                         application/purchase_validation.go, infrastructure/memory/inventory.go,
--                         infrastructure/memory/idempotency_store.go (Program/Idempotency),
--                         application/create_order.go and idempotency.go (Program/Creation)
--   Migration             app/migrate-service/internal: domain/migrate, application/migration.go and
--                         infrastructure/memory/migration_repository.go
--   Common, Action        lists, maps, 64-bit integers, bits and texts; methods with a state and errors
--
-- How they interact: the order commands call the program service through `ProgramSeatClient`, and the
-- payments call the order service through `OrderPaymentClient`; both are records of operations over a
-- state of their own, so that the theorems hold for every service behind them. A repository is a
-- record (`OrderStore`, `PaymentStore`) with the laws that the commands rely on (`IsOrderStore`,
-- `IsPaymentStore`); the repositories in memory are proved to keep them. The generators feed the
-- routers: an order number carries the gene of its user, by which the order is routed. The consumer of
-- order events and the worker that closes orders share a repository and a `Queue`.
--
-- Correspondence: a function of the library has the name of the Go function in snake case; a struct is
-- a record, a string type with constants is a data type with one more constructor for any other text.
-- A method with a receiver that it changes takes the state and gives it back. Go's `(value, error)` is
-- `Result`, and what was written before an error stays written. An int64 is an integer whose
-- arithmetic wraps around by `wrap64`; an `int` has 64 bits. A Go map is an association list
-- (Common/Dict). A mutex makes each method one step, so it has no counterpart.
--
-- Fuel: only the wait for the next millisecond (Idgen/Clock) takes fuel, the number of readings of
-- the clock; it ends as soon as the clock has a later reading within the fuel.
--
-- Parameters: the readings of the clock, `status.FromError` of the gRPC library (it recognises the
-- error of a status), `strings.EqualFold`, the trimmed length of a key, the digest of a purchase and the
-- JSON of an event and of a message, the text of a page cursor, the lock service, the payment channel,
-- the catalogue and the user service.
--
-- Not modelled: the transports (HTTP, gRPC, Kafka), the repositories in SQL, Redis and Elasticsearch
-- whose work is done by other systems, metrics and logs, configuration, generated code, the web
-- client, and the gateway, user, admin, base-data and customize services.
pub mod Common
pub mod Errors
pub mod Action
pub mod Lock
pub mod DelayQueue
pub mod Migration
pub mod Order
pub mod Pay
pub mod Program
pub mod Idgen
pub mod Sharding
