-- ===== src/Order/Memory.antt =====
-- app/order-service/internal/infrastructure/memory/order_repository.go.
use ticket_hub.Common.{ℤ, Option, none, some, arith, Option-cases, ◌==◌, int_eq, if◌then◌else◌}
use ticket_hub.Common.Dict.{Dict, lookup, insert, lookup-insert}
use ticket_hub.Errors.{Code, new_error, Result, ok, err}
use ticket_hub.Action.{Action}
use ticket_hub.Order.Domain.{Order}
use ticket_hub.Order.Store.{OrderStore, IsOrderStore}

abbrev pub Orders : Type 0
Orders = Dict ℤ Order

-- `Save`
unfoldable pub save : Order → Action Orders (Unit {0})
save o orders = (ok tt, insert o.order_number o orders)

-- `FindByOrderNumberSystem`
unfoldable pub find_system : ℤ → Orders → Result Order
find_system n orders = elim (lookup n orders) [
  | none ↦ err (new_error Code.not_found "order not found")
  | some o ↦ ok o
]

-- `FindByOrderNumber`
unfoldable pub find : ℤ → ℤ → Orders → Result Order
find n u orders = elim (lookup n orders) [
  | none ↦ err (new_error Code.not_found "order not found")
  | some o ↦ if o.user_id == u then ok o else err (new_error Code.not_found "order not found")
]

-- `Update`
unfoldable pub update : Order → Action Orders (Unit {0})
update o orders = elim (lookup o.order_number orders) [
  | none ↦ (err (new_error Code.not_found "order not found"), orders)
  | some old ↦ (ok tt, insert o.order_number o orders)
]

abbrev pub memory_store : OrderStore Orders
memory_store = record { save = save; find = find; find_system = some find_system; update = update }

abbrev pub view : Orders → ℤ → Option Order
view orders n = lookup n orders

-- The memory repository keeps what the commands rely on.
pub memory_store-IsOrderStore : IsOrderStore memory_store view
unfolding find find_system update
memory_store-IsOrderStore = record {
  find_view = λ n u s o found. ground (arith, found, Option-cases (lookup n s));
  find_system_view = λ missing n s o found. ground (arith, found);
  update_view = λ o s m done. ground (arith, done, lookup-insert o.order_number m o s);
  update_failed = λ o s m e failed. ground (arith, failed);
}
