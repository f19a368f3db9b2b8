-- ===== src/Order/Workers/Closing.antt =====
-- app/order-service/internal/application/cancel_order_worker.go with order_command.go
-- (`CloseExpired`): a poll that succeeds leaves no order of its messages unpaid and open.
use ticket_hub.Common.{
  ℤ, ◌≡◌, ◌≢◌, refl, sym, ap, subst, ◌∙◌, inl, inr, Bool, true, false, Option, some, arith,
  Bool-cases, nat_eq, string_eq, int_eq, ==_refl,
}
use ticket_hub.Errors.{Code, GoError, ok, err, Result-cases, Status}
use ticket_hub.Errors.Grpc.{is_code}
use ticket_hub.Action.{unless}
use ticket_hub.Order.Domain.{
  Order, no_pay, paid, cancel, refund, other_status, Step, pays, cancels, refunds, SameOrder,
  mark_canceled, Marked, is_canceled,
}
use ticket_hub.Order.Domain
use ticket_hub.Order.Domain.Transitions.{mark_canceled-Marked}
use ticket_hub.Order.Store.{OrderStore, IsOrderStore}
use ticket_hub.Order.Commands.{World, ProgramSeatClient, on_orders, cancel_order, close_expired}
use ticket_hub.Order.Commands.Evolution.{IsKeyed}

-- An order that is not waiting for its payment under this number and user.
abbrev pub IsClosed : {S : Type 0} → (S → ℤ → Option Order) → ℤ → ℤ → S → Type 0
IsClosed view n u s = (o : Order) → view s n ≡ some o → o.user_id ≡ u → o.status ≢ no_pay

-- A read that finds nothing says so only where there is nothing for that user.
abbrev pub FindsAll :
    {S : Type 0} → (GoError → Option Status) → OrderStore S → (S → ℤ → Option Order) → Type 0
FindsAll {S} from_error store view =
    (n u : ℤ) (s : S) (e : GoError) (o : Order)
    → store.find n u s ≡ err e
    → is_code from_error e Code.not_found ≡ true
    → view s n ≡ some o
    → o.user_id ≢ u

mark_canceled_from :
    (s : Domain.Status) (now : ℤ) (o marked : Order)
    → o.status ≡ s
    → mark_canceled now o ≡ ok marked
    → marked.status ≡ cancel
unfolding mark_canceled
mark_canceled_from no_pay now o marked at h = ground (arith, h, at)
mark_canceled_from paid now o marked at h = absurd (ground (arith, h, at))
mark_canceled_from cancel now o marked at h = ground (arith, h, at)
mark_canceled_from refund now o marked at h = absurd (ground (arith, h, at))
mark_canceled_from (other_status x) now o marked at h = absurd (ground (arith, h, at))

module _ {S P L : Type 0} (store : OrderStore S) (client : ProgramSeatClient P)
    (view : S → ℤ → Option Order) (laws : IsOrderStore store view) where
  -- Writing a marked order back, if it was not marked before, leaves it under its number.
  after_write :
      (w : World S P L) (flag : Bool) (marked : Order)
      → (flag ≡ true → view w.orders marked.order_number ≡ some marked)
      → (unless flag (on_orders store client (store.update marked)) w).0 ≡ ok tt
      → view
          (unless flag (on_orders store client (store.update marked)) w).1.orders
          marked.order_number
        ≡ some marked
  after_write w true marked before done = before refl
  after_write w false marked before done =
      laws.update_view marked w.orders marked.order_number done
      ∙ rw (==_refl marked.order_number) refl

  -- A cancellation that succeeds leaves the order canceled.
  cancel_order-IsClosed :
      (now n u : ℤ) (w : World S P L)
      → IsKeyed view w.orders
      → (cancel_order store client now n u w).0 ≡ ok tt
      → IsClosed view n u (cancel_order store client now n u w).1.orders
  unfolding cancel_order
  cancel_order-IsClosed now n u w keyed done = elim (Result-cases (store.find n u w.orders)) [
    | inl (e, missing) ↦ absurd (ground (arith, done, missing))
    | inr (current, found) ↦ elim (Result-cases (mark_canceled now current)) [
      | inl (e, refused) ↦ absurd (ground (arith, done, found, refused))
      | inr (marked, marks) ↦
          let here = (laws.find_view n u w.orders current found).0 in
          let write =
            unless (is_canceled current.status) (on_orders store client (store.update marked)) w in
          elim (Result-cases write.0) [
            | inl (e, failed) ↦ absurd (ground (arith, done, found, marks, failed))
            | inr (x, written) ↦ λ o at user waiting.
                let marking = mark_canceled-Marked now current marks in
                let number : marked.order_number ≡ n = elim marking [
                  | inl (flag, same) ↦
                      ap (λ (t : Order). t.order_number) same ∙ keyed n current here
                  | inr (flag, step, same) ↦ same.number_same ∙ keyed n current here
                ] in
                let before : is_canceled current.status ≡ true
                    → view w.orders marked.order_number ≡ some marked =
                  λ is. elim marking [
                    | inl (flag, same) ↦
                        subst (λ (k : ℤ). view w.orders k ≡ some marked) (sym number)
                          (here ∙ ap some (sym same))
                    | inr (flag, step, same) ↦ absurd (ground (arith, flag, is))
                  ] in
                let stands = after_write w (is_canceled current.status) marked before written in
                let orders : (cancel_order store client now n u w).1.orders ≡ write.1.orders =
                  ground (arith, found, marks, written) in
                let status = mark_canceled_from current.status now current marked refl marks in
                let there : view write.1.orders n ≡ some o = rw orders at at in
                let stays_there =
                  subst (λ (k : ℤ). view write.1.orders k ≡ some marked) number stands in
                let one : marked ≡ o = ground (arith, there, stays_there) in
                ground (arith, status, waiting, ap (λ (t : Order). t.status) one)
          ]
    ]
  ]

  pub close_expired-IsClosed :
      (from_error : GoError → Option Status)
      → FindsAll from_error store view
      → (now n u : ℤ) (w : World S P L) → IsKeyed view w.orders
      → (close_expired store client from_error now n u w).0 ≡ ok tt
      → IsClosed view n u (close_expired store client from_error now n u w).1.orders
  unfolding close_expired
  close_expired-IsClosed from_error finds now n u w keyed done =
      elim (Result-cases (store.find n u w.orders)) [
        | inl (e, missing) ↦ elim (Bool-cases (is_code from_error e Code.not_found)) [
          | inl absent ↦ λ o at user waiting.
              let orders : (close_expired store client from_error now n u w).1.orders ≡ w.orders =
                ground (arith, missing, absent) in
              finds n u w.orders e o missing absent (rw orders at at) user
          | inr other ↦ absurd (ground (arith, done, missing, other))
        ]
        | inr (current, found) ↦ from current.status current found refl
      ]
    where
      stands :
          (current : Order)
          → store.find n u w.orders ≡ ok current
          → current.status ≢ no_pay
          → (close_expired store client from_error now n u w).1.orders ≡ w.orders
          → IsClosed view n u (close_expired store client from_error now n u w).1.orders
      stands current found closed orders o at user waiting =
          let here = (laws.find_view n u w.orders current found).0 in
          let there : view w.orders n ≡ some o = rw orders at at in
          let one : current ≡ o = ground (arith, here, there) in
          closed (ap (λ (t : Order). t.status) one ∙ waiting)

      from :
          (s : Domain.Status) (current : Order)
          → store.find n u w.orders ≡ ok current
          → current.status ≡ s
          → IsClosed view n u (close_expired store client from_error now n u w).1.orders
      from no_pay current found at =
          let same : close_expired store client from_error now n u w
              ≡ cancel_order store client now n u w =
            ground (arith, found, at) in
          rw same (cancel_order-IsClosed now n u w keyed (rw same at done))
      from cancel current found at =
          let same : close_expired store client from_error now n u w
              ≡ cancel_order store client now n u w =
            ground (arith, found, at) in
          rw same (cancel_order-IsClosed now n u w keyed (rw same at done))
      from paid current found at =
          stands current found (λ e. ground (arith, at, e)) (ground (arith, found, at))
      from refund current found at =
          stands current found (λ e. ground (arith, at, e)) (ground (arith, found, at))
      from (other_status s) current found at = absurd (ground (arith, done, found, at))
