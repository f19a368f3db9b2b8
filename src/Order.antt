-- ===== src/Order.antt =====
-- app/order-service/internal: orders, their repositories and the commands on them. A time is a
-- number of nanoseconds.
pub mod Domain
pub mod Store
pub mod Memory
pub mod Commands
pub mod Workers
pub mod Queries
pub mod Compensation
mod Tests
