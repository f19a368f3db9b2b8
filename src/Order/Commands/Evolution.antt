-- ===== src/Order/Commands/Evolution.antt =====
-- app/order-service/internal/application/order_command.go: what a command may do to the orders.
use ticket_hub.Common.{
  ℤ, ◌≡◌, refl, sym, ap, subst, ◌∙◌, inl, inr, Bool, true, false, Option, some, arith, Bool-cases,
  ◌==◌, nat_eq, string_eq, int_eq, eqb_ℤ_iff,
}
use ticket_hub.Errors.{GoError, Result, ok, Result-cases, Status}
use ticket_hub.Action.{unless}
use ticket_hub.Order.Domain
use ticket_hub.Order.Domain.{
  Order, no_pay, paid, cancel, refund, other_status, mark_paid, mark_canceled, mark_refund, is_paid,
  is_canceled, is_refunded, Step, pays, cancels, refunds, SameOrder, Marked,
}
use ticket_hub.Order.Domain.Transitions.{mark_paid-Marked, mark_canceled-Marked, mark_refund-Marked}
use ticket_hub.Order.Store.{OrderStore, IsOrderStore, system_lookup}
use ticket_hub.Order.Commands.{
  World, ProgramSeatClient, PaymentCallbackResult, on_orders, cancel_order, persist_paid,
  mark_order_paid, close_expired, settle_payment, accept_payment, handle_payment_callback,
  mark_refunded, no_system_lookup, result_of,
}

-- What a command may do to the order under one number: nothing, or one step of its life.
pub data Evolves (a b : Option Order) : Type 0 where
  stays : b ≡ a → Evolves a b
  steps :
      (o o' : Order)
      → a ≡ some o
      → b ≡ some o'
      → Step o.status o'.status
      → SameOrder o o'
      → Evolves a b

module _ {S : Type 0} (view : S → ℤ → Option Order) where
  -- From one state of the repository to the next, every order evolves.
  abbrev pub AllEvolve : S → S → Type 0
  AllEvolve s s' = (n : ℤ) → Evolves (view s n) (view s' n)

  -- Each order stands under its own number.
  abbrev pub IsKeyed : S → Type 0
  IsKeyed s = (n : ℤ) (o : Order) → view s n ≡ some o → o.order_number ≡ n

  all_stay : {s s' : S} → s' ≡ s → AllEvolve s s'
  all_stay e n = stays (ap (λ t. view t n) e)

module _ {S P L : Type 0} (store : OrderStore S) (client : ProgramSeatClient P)
    (view : S → ℤ → Option Order) (laws : IsOrderStore store view) where
  -- Writing a marked order back, if it was not marked before.
  abbrev written : World S P L → Bool → Order → Result (Unit {0}) × World S P L
  written w done marked = unless done (on_orders store client (store.update marked)) w

  write_back :
      (w : World S P L) (done : Bool) (current marked : Order)
      → view w.orders current.order_number ≡ some current
      → Marked done current marked
      → AllEvolve view w.orders (written w done marked).1.orders
  write_back w true current marked found m n = stays refl
  write_back w false current marked found (inl (flag, same)) n = cc
  write_back w false current marked found (inr (flag, step, same)) n =
      elim (Result-cases (store.update marked w.orders).0) [
        | inl (e, failed) ↦ stays (laws.update_failed marked w.orders n e failed)
        | inr (u, done) ↦ elim (Bool-cases (marked.order_number == n)) [
          | inl here ↦
              let at : current.order_number ≡ n =
                sym same.number_same ∙ (eqb_ℤ_iff marked.order_number n).0 here in
              steps current marked (subst (λ k. view w.orders k ≡ some current) at found)
                (laws.update_view marked w.orders n done ∙ rw here) step same
          | inr elsewhere ↦ stays (laws.update_view marked w.orders n done ∙ rw elsewhere)
        ]
      ]

  pub persist_paid-AllEvolve :
      (now : ℤ) (current : Order) (w : World S P L)
      → view w.orders current.order_number ≡ some current
      → AllEvolve view w.orders (persist_paid store client now current w).1.orders
  unfolding persist_paid
  persist_paid-AllEvolve now current w found = elim (Result-cases (mark_paid now current)) [
    | inl (e, refused) ↦ all_stay view (ground (arith, refused))
    | inr (marked, done) ↦ subst (AllEvolve view w.orders) (ground (arith, done)) (
        write_back w (is_paid current.status) current marked found
          (mark_paid-Marked now current done))
  ]

  module _ (w : World S P L) (keyed : IsKeyed view w.orders) where
    found_at :
        (n : ℤ) (o : Order) → view w.orders n ≡ some o → view w.orders o.order_number ≡ some o
    found_at n o e = subst (λ k. view w.orders k ≡ some o) (sym (keyed n o e)) e

    pub cancel_order-AllEvolve :
        (now n u : ℤ) → AllEvolve view w.orders (cancel_order store client now n u w).1.orders
    unfolding cancel_order
    cancel_order-AllEvolve now n u = elim (Result-cases (store.find n u w.orders)) [
      | inl (e, missing) ↦ all_stay view (ground (arith, missing))
      | inr (current, found) ↦ elim (Result-cases (mark_canceled now current)) [
        | inl (e, refused) ↦ all_stay view (ground (arith, found, refused))
        | inr (marked, done) ↦ subst (AllEvolve view w.orders) (ground (arith, found, done)) (
            write_back w (is_canceled current.status) current marked
              (found_at n current (laws.find_view n u w.orders current found).0)
              (mark_canceled-Marked now current done))
      ]
    ]

    pub mark_order_paid-AllEvolve :
        (now n u : ℤ) → AllEvolve view w.orders (mark_order_paid store client now n u w).1.orders
    unfolding mark_order_paid
    mark_order_paid-AllEvolve now n u = elim (Result-cases (store.find n u w.orders)) [
      | inl (e, missing) ↦ all_stay view (ground (arith, missing))
      | inr (current, found) ↦ subst (AllEvolve view w.orders) (ground (arith, found)) (
          persist_paid-AllEvolve now current w
            (found_at n current (laws.find_view n u w.orders current found).0))
    ]

    pub close_expired-AllEvolve :
        (from_error : GoError → Option Status) (now n u : ℤ)
        → AllEvolve view w.orders (close_expired store client from_error now n u w).1.orders
    unfolding close_expired
    close_expired-AllEvolve from_error now n u = elim (Result-cases (store.find n u w.orders)) [
      | inl (e, missing) ↦ all_stay view (ground (arith, missing))
      | inr (current, found) ↦ closes current.status current found refl
    ]
      where
        closes :
            (s : Domain.Status) (current : Order)
            → store.find n u w.orders ≡ ok current
            → current.status ≡ s
            → AllEvolve view w.orders (close_expired store client from_error now n u w).1.orders
        closes no_pay current found at =
            subst (AllEvolve view w.orders) (ground (arith, found, at))
              (cancel_order-AllEvolve now n u)
        closes cancel current found at =
            subst (AllEvolve view w.orders) (ground (arith, found, at))
              (cancel_order-AllEvolve now n u)
        closes s current found at = all_stay view (ground (arith, found, at))

    settle_payment-AllEvolve :
        (now : ℤ) (current : Order) (result : PaymentCallbackResult)
        → view w.orders current.order_number ≡ some current
        → AllEvolve view w.orders (settle_payment store client now current result w).2.orders
    unfolding settle_payment
    settle_payment-AllEvolve now current result found =
        subst (AllEvolve view w.orders) (ground arith) (persist_paid-AllEvolve now current w found)

    accept_payment_from :
        (s : Domain.Status) (now : ℤ) (current : Order) (result : PaymentCallbackResult)
        → current.status ≡ s
        → view w.orders current.order_number ≡ some current
        → AllEvolve view w.orders (accept_payment store client now current result w).2.orders
    unfolding accept_payment
    accept_payment_from no_pay now current result at found =
        subst (AllEvolve view w.orders) (ground (arith, at))
          (settle_payment-AllEvolve now current result found)
    accept_payment_from paid now current result at found =
        subst (AllEvolve view w.orders) (ground (arith, at))
          (settle_payment-AllEvolve now current result found)
    accept_payment_from s now current result at found = all_stay view (ground (arith, at))

    pub handle_payment_callback-AllEvolve :
        (now n amount_cent : ℤ) (paid_flag : Bool)
        → AllEvolve view w.orders
            (handle_payment_callback store client now n amount_cent paid_flag w).2.orders
    unfolding handle_payment_callback
    handle_payment_callback-AllEvolve now n amount_cent paid_flag =
        elim (Result-cases (system_lookup store no_system_lookup n w.orders)) [
          | inl (e, missing) ↦ all_stay view (ground (arith, missing))
          | inr (current, found) ↦ elim (Bool-cases (amount_cent == current.amount_cent)) [
            | inl right ↦ elim (Bool-cases paid_flag) [
              | inl made ↦ subst (AllEvolve view w.orders) (ground (arith, found, right, made)) (
                  accept_payment_from current.status now current (result_of current) refl (
                    found_at n current
                      (laws.find_system_view no_system_lookup n w.orders current found)))
              | inr unpaid ↦ all_stay view (ground (arith, found, right, unpaid))
            ]
            | inr wrong ↦ all_stay view (ground (arith, found, wrong))
          ]
        ]

    pub mark_refunded-AllEvolve :
        (now n : ℤ) → AllEvolve view w.orders (mark_refunded store client now n w).1.orders
    unfolding mark_refunded
    mark_refunded-AllEvolve now n =
        elim (Result-cases (system_lookup store no_system_lookup n w.orders)) [
          | inl (e, missing) ↦ all_stay view (ground (arith, missing))
          | inr (current, found) ↦ elim (Result-cases (mark_refund now current)) [
            | inl (e, refused) ↦ all_stay view (ground (arith, found, refused))
            | inr (marked, done) ↦ subst (AllEvolve view w.orders) (ground (arith, found, done)) (
                write_back w (is_refunded current.status) current marked
                  (found_at n current
                    (laws.find_system_view no_system_lookup n w.orders current found))
                  (mark_refund-Marked now current done))
          ]
        ]
