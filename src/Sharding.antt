-- ===== src/Sharding.antt =====
-- pkg/sharding: which database and table an order lives in. `int` is 64 bits wide.
pub mod Location
pub mod ModRouter
pub mod GeneRouter
pub mod MappingRouter
mod Tests
