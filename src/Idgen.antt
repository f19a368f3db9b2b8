-- ===== src/Idgen.antt =====
-- pkg/idgen: identifiers and order numbers.
-- The clock is a parameter: its i-th reading in nanoseconds since 1970. A generator is handed the
-- number of the next reading and gives back the number of the one after those it took.
pub mod Clock
pub mod Snowflake
pub mod OrderNumber
pub mod Fields
pub mod Numbers
pub mod Issued
pub mod Calls
pub mod Rising
pub mod Progress
mod Tests
