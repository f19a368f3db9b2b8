-- ===== src/Lock.antt =====
-- pkg/lock: the interface of a lock service over the state `L`. `acquire` gives the token of the
-- lock; what `Release` returns is not read by any caller.
pub mod Memory
mod Tests
use ticket_hub.Common.{ℤ, String}
use ticket_hub.Action.{Action}

pub record Locker (L : Type 0) : Type 0 where
  pub acquire : String → ℤ → Action L String
  pub release : String → String → L → L
