-- ===== src/Pay/Memory.antt =====
-- app/pay-service/internal/infrastructure/memory/payment_repository.go.
use ticket_hub.Common.{ℤ, ◌≡◌, refl, none, some, arith, Bool-cases, ◌==◌, int_eq}
use ticket_hub.Common.Dict.{Dict, lookup, insert, lookup-insert}
use ticket_hub.Errors.{Code, new_error, Result, ok, err}
use ticket_hub.Action.{Action}
use ticket_hub.Pay.{Payment, PaymentStore, IsPaymentStore}

abbrev pub Payments : Type 0
Payments = Dict ℤ Payment

-- `Find`
unfoldable pub find : ℤ → Payments → Result Payment
find n payments = elim (lookup n payments) [
  | none ↦ err (new_error Code.not_found "payment not found")
  | some p ↦ ok p
]

-- `Save`
unfoldable pub save : Payment → Action Payments (Unit {0})
save p payments = (ok tt, insert p.order_number p payments)

abbrev pub memory_payments : PaymentStore Payments
memory_payments = record { save = save; find = find }

-- The memory repository keeps what the payments rely on.
pub memory_payments-IsPaymentStore : IsPaymentStore memory_payments
unfolding find save
memory_payments-IsPaymentStore = record {
  save_find = λ p s n done.
      ground (arith, lookup-insert p.order_number n p s, Bool-cases (p.order_number == n));
}

pub save_succeeds : (p : Payment) (s : Payments) → (save p s).0 ≡ ok tt
unfolding save
save_succeeds p s = refl
