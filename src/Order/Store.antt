-- ===== src/Order/Store.antt =====
-- app/order-service/internal/domain/order/repository.go (`Repository`) with `systemOrderRepository`
-- of application/order_command.go: what the commands use of an order repository, and what they rely
-- on.
use ticket_hub.Common.{ℤ, ◌≡◌, Option, none, some, ◌==◌, int_eq, if◌then◌else◌}
use ticket_hub.Errors.{GoError, Result, ok, err}
use ticket_hub.Action.{Action}
use ticket_hub.Order.Domain.{Order}

-- A repository over the state `S`. `find_system` is `none` for a repository without
-- `FindByOrderNumberSystem`.
pub record OrderStore (S : Type 0) : Type 0 where
  pub save : Order → Action S (Unit {0})
  pub find : ℤ → ℤ → S → Result Order
  pub find_system : Option (ℤ → S → Result Order)
  pub update : Order → Action S (Unit {0})

abbrev pub system_lookup : {S : Type 0} → OrderStore S → GoError → ℤ → S → Result Order
system_lookup store missing n s = elim store.find_system [ none ↦ err missing | some f ↦ f n s ]

-- `view s n` is the order that is stored under the number `n`. A read that succeeds gives it; a write
-- that succeeds replaces it, and one that fails leaves every order as it was.
pub record IsOrderStore {S : Type 0} (store : OrderStore S) (view : S → ℤ → Option Order)
    : Type 0 where
  pub find_view :
      (n u : ℤ) (s : S) (o : Order)
      → store.find n u s ≡ ok o
      → (view s n ≡ some o) × (o.user_id ≡ u)
  pub find_system_view :
      (missing : GoError) (n : ℤ) (s : S) (o : Order)
      → system_lookup store missing n s ≡ ok o
      → view s n ≡ some o
  pub update_view :
      (o : Order) (s : S) (m : ℤ)
      → (store.update o s).0 ≡ ok tt
      → view (store.update o s).1 m ≡ (if o.order_number == m then some o else view s m)
  pub update_failed :
      (o : Order) (s : S) (m : ℤ) (e : GoError)
      → (store.update o s).0 ≡ err e
      → view (store.update o s).1 m ≡ view s m
