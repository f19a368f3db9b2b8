-- ===== src/Order/Commands/Payment.antt =====
-- app/order-service/internal/application/order_command.go: what payments, cancellations and the
-- expiry of an order come to.
use ticket_hub.Common.{
  ℤ, ◌≡◌, ◌≢◌, refl, sym, ap, subst, ◌∙◌, ◌⊎◌, inl, inr, Bool, true, false, Option, some, arith,
  Bool-cases, ◌==◌, nat_eq, string_eq, int_eq, ==_refl, ==_ne, eqb_ℤ_iff,
}
use ticket_hub.Errors.{Code, new_error, Result, ok, err, Result-cases}
use ticket_hub.Order.Domain
use ticket_hub.Order.Domain.{
  Order, no_pay, paid, cancel, refund, other_status, mark_paid, mark_canceled, is_paid, is_canceled,
  ticket_count, Marked,
}
use ticket_hub.Order.Domain.Transitions.{mark_paid-Marked, mark_paid-status}
use ticket_hub.Order.Store.{OrderStore, IsOrderStore, system_lookup}
use ticket_hub.Order.Commands.{
  World, ProgramSeatClient, persist_paid, settle_payment, accept_payment, handle_payment_callback,
  no_system_lookup, request_of, result_of,
}

module _ {S P L : Type 0} (store : OrderStore S) (client : ProgramSeatClient P) where
  refund_only_from :
      (s : Domain.Status) (now : ℤ) (current : Order) (w : World S P L)
      → current.status ≡ s
      → (accept_payment store client now current (result_of current) w).0.refund_required ≡ true
      → (current.status ≡ cancel)
        × (accept_payment store client now current (result_of current) w ≡ (
          record { status = cancel; refund_required = true; amount_cent = current.amount_cent },
          ok tt,
          w,
        ))
  unfolding accept_payment settle_payment
  refund_only_from cancel now current w at e = (at, ground arith)
  refund_only_from no_pay now current w at e =
      absurd (ground (arith, Result-cases (persist_paid store client now current w).0))
  refund_only_from paid now current w at e =
      absurd (ground (arith, Result-cases (persist_paid store client now current w).0))
  refund_only_from s now current w at e = absurd (ground arith)

  -- A callback asks for a refund only where the payment was made, with the amount of the order, for
  -- an order that is canceled; it then fails in nothing, reports the amount of the order and
  -- changes neither the orders nor the seats.
  pub refund_required_only_canceled :
      (now n amount_cent : ℤ) (paid_flag : Bool) (w : World S P L)
      → (handle_payment_callback store client now n amount_cent paid_flag w).0.refund_required
        ≡ true
      → (current : Order) × (system_lookup store no_system_lookup n w.orders ≡ ok current)
        × (current.status ≡ cancel)
        × (paid_flag ≡ true)
        × (amount_cent ≡ current.amount_cent)
        × (handle_payment_callback store client now n amount_cent paid_flag w ≡ (
          record { status = cancel; refund_required = true; amount_cent = current.amount_cent },
          ok tt,
          w,
        ))
  unfolding handle_payment_callback
  refund_required_only_canceled now n amount_cent paid_flag w e =
      elim (Result-cases (system_lookup store no_system_lookup n w.orders)) [
        | inl (x, missing) ↦ absurd (ground (arith, missing))
        | inr (current, found) ↦ elim (Bool-cases (amount_cent == current.amount_cent)) [
          | inr wrong ↦ absurd (ground (arith, found, wrong))
          | inl right ↦ elim (Bool-cases paid_flag) [
            | inr unpaid ↦ absurd (ground (arith, found, right, unpaid))
            | inl made ↦
                let (canceled, whole) =
                  refund_only_from current.status now current w refl
                    (ground (arith, found, right, made)) in
                (
                  current,
                  found,
                  canceled,
                  made,
                  (eqb_ℤ_iff amount_cent current.amount_cent).0 right,
                  ground (arith, found, right, made, whole),
                )
          ]
        ]
      ]

  -- A payment of the right amount that comes in for an order that is found to be canceled is answered
  -- by a request for its refund, and nothing changes.
  pub late_payment_refunded :
      (now n : ℤ) (current : Order) (w : World S P L)
      → system_lookup store no_system_lookup n w.orders ≡ ok current
      → current.status ≡ cancel
      → handle_payment_callback store client now n current.amount_cent true w ≡ (
        record { status = cancel; refund_required = true; amount_cent = current.amount_cent },
        ok tt,
        w,
      )
  unfolding handle_payment_callback accept_payment
  late_payment_refunded now n current w found canceled = ground (arith, ==_refl current.amount_cent)

  -- A callback with another amount than that of the order that is found is refused, and changes
  -- nothing.
  pub wrong_amount_refused :
      (now n amount_cent : ℤ) (paid_flag : Bool) (current : Order) (w : World S P L)
      → system_lookup store no_system_lookup n w.orders ≡ ok current
      → amount_cent ≢ current.amount_cent
      → handle_payment_callback store client now n amount_cent paid_flag w ≡ (
        result_of current,
        err (new_error Code.invalid_argument "payment amount does not match order amount"),
        w,
      )
  unfolding handle_payment_callback
  wrong_amount_refused now n amount_cent paid_flag current w found wrong =
      ground (arith, ==_ne amount_cent current.amount_cent wrong)

  module _ (view : S → ℤ → Option Order) (laws : IsOrderStore store view) where
    -- The order under its number after the writing.
    stored :
        (w : World S P L) (current marked : Order)
        → marked.order_number ≡ current.order_number
        → (store.update marked w.orders).0 ≡ ok tt
        → view (store.update marked w.orders).1 current.order_number ≡ some marked
    stored w current marked same done =
        laws.update_view marked w.orders current.order_number done
        ∙ rw (same, ==_refl current.order_number)

    -- A marking that succeeded is written back, and then told to the program service.
    abbrev pub Settled :
        ℤ → World S P L → Order → (P → Result (Unit {0}) × P) → World S P L → Type 0
    Settled n w marked told w' =
        (view w'.orders n ≡ some marked)
        × (w'.program ≡ (told w.program).1)
        × ((told w.program).0 ≡ ok tt)

    persist_paid-Settled :
        (now : ℤ) (current : Order) (w : World S P L) {marked : Order}
        → view w.orders current.order_number ≡ some current
        → (persist_paid store client now current w).0 ≡ ok marked
        → (marked.status ≡ paid)
          × Settled current.order_number w marked
              (client.confirm_seats_sold (request_of marked))
              (persist_paid store client now current w).1
    unfolding persist_paid
    persist_paid-Settled now current w found e = elim (Result-cases (mark_paid now current)) [
      | inl (x, refused) ↦ absurd (ground (arith, refused))
      | inr (m, done) ↦ elim (mark_paid-Marked now current done) [
        | inl (flag, same) ↦
            elim (Result-cases (client.confirm_seats_sold (request_of m) w.program).0) [
              | inl (x, failed) ↦ absurd (ground (arith, done, flag, failed))
              | inr (v, told) ↦ (
                ground (arith, done, flag, told, mark_paid-status now current done),
                (
                  ground (arith, done, flag, told),
                  ground (arith, done, flag, told),
                  ground (arith, done, flag, told),
                ),
              )
            ]
        | inr (flag, step, same) ↦ elim (Result-cases (store.update m w.orders).0) [
          | inl (x, failed) ↦ absurd (ground (arith, done, flag, failed))
          | inr (u, written) ↦
              elim (Result-cases (client.confirm_seats_sold (request_of m) w.program).0) [
                | inl (x, failed) ↦ absurd (ground (arith, done, flag, written, failed))
                | inr (v, told) ↦ (
                  ground (arith, done, flag, told, written, mark_paid-status now current done),
                  (
                    ground (
                      arith,
                      done,
                      flag,
                      told,
                      written,
                      stored w current m same.number_same written,
                    ),
                    ground (arith, done, flag, told, written),
                    ground (arith, done, flag, told, written),
                  ),
                )
              ]
        ]
      ]
    ]

    persist_paid-flat :
        (now : ℤ) (current : Order) (w : World S P L) {marked : Order}
        → view w.orders current.order_number ≡ some current
        → (persist_paid store client now current w).0 ≡ ok marked
        → (marked.status ≡ paid)
          × (view (persist_paid store client now current w).1.orders current.order_number
              ≡ some marked)
          × ((persist_paid store client now current w).1.program
              ≡ (client.confirm_seats_sold (request_of marked) w.program).1)
          × ((client.confirm_seats_sold (request_of marked) w.program).0 ≡ ok tt)
    persist_paid-flat now current w found e =
        let (is_now_paid, settled) = persist_paid-Settled now current w found e in
        (is_now_paid, settled.0, settled.1, settled.2)

    settle_payment-Settled :
        (now : ℤ) (current : Order) (w : World S P L)
        → view w.orders current.order_number ≡ some current
        → (settle_payment store client now current (result_of current) w).1 ≡ ok tt
        → (marked : Order) × (marked.status ≡ paid)
          × Settled current.order_number w marked
              (client.confirm_seats_sold (request_of marked))
              (settle_payment store client now current (result_of current) w).2
          × ((settle_payment store client now current (result_of current) w).0 ≡ record {
            status = paid;
            refund_required = false;
            amount_cent = current.amount_cent;
          })
    unfolding settle_payment
    settle_payment-Settled now current w found e =
        elim (Result-cases (persist_paid store client now current w).0) [
          | inl (x, failed) ↦ absurd (ground (arith, failed))
          | inr (marked, done) ↦
              let (is_now_paid, seen, program, told) = persist_paid-flat now current w found done in
              (
                marked,
                is_now_paid,
                (ground (arith, done, seen), ground (arith, done, program), told),
                ground (arith, done, is_now_paid),
              )
        ]

    accept_payment_settles :
        (now : ℤ) (current : Order) (w : World S P L)
        → (current.status ≡ no_pay) ⊎ (current.status ≡ paid)
        → accept_payment store client now current (result_of current) w
          ≡ settle_payment store client now current (result_of current) w
    unfolding accept_payment
    accept_payment_settles now current w open_status = ground arith

    callback_settles :
        (now n : ℤ) (current : Order) (w : World S P L)
        → system_lookup store no_system_lookup n w.orders ≡ ok current
        → (current.status ≡ no_pay) ⊎ (current.status ≡ paid)
        → handle_payment_callback store client now n current.amount_cent true w
          ≡ settle_payment store client now current (result_of current) w
    unfolding handle_payment_callback
    callback_settles now n current w found open_status = ground (
      arith,
      found,
      ==_refl current.amount_cent,
      accept_payment_settles now current w open_status,
    )

    -- A callback for a payment of the right amount that succeeds on an order which is not paid yet,
    -- or is paid already, leaves the order paid and its seats confirmed as sold. The repository
    -- keeps its laws, and has the order under its own number.
    pub payment_confirms_seats :
        (now n : ℤ) (current : Order) (w : World S P L)
        → current.order_number ≡ n
        → system_lookup store no_system_lookup n w.orders ≡ ok current
        → (current.status ≡ no_pay) ⊎ (current.status ≡ paid)
        → (handle_payment_callback store client now n current.amount_cent true w).1 ≡ ok tt
        → let (result, r, w') =
            handle_payment_callback store client now n current.amount_cent true w in
          (marked : Order) × (marked.status ≡ paid)
          × Settled current.order_number w marked (client.confirm_seats_sold (request_of marked)) w'
          × (result ≡ record {
            status = paid;
            refund_required = false;
            amount_cent = current.amount_cent;
          })
    payment_confirms_seats now n current w number found open_status e =
        let whole = callback_settles now n current w found open_status in
        let seen =
          subst (λ k. view w.orders k ≡ some current) (sym number)
            (laws.find_system_view no_system_lookup n w.orders current found) in
        let settled = settle_payment-Settled now current w seen (ap (λ t. t.1) (sym whole) ∙ e) in
        subst
          (λ t.
            (marked : Order) × (marked.status ≡ paid)
            × Settled current.order_number w marked (client.confirm_seats_sold (request_of marked))
                t.2
            × (t.0 ≡ record {
              status = paid;
              refund_required = false;
              amount_cent = current.amount_cent;
            }))
          (sym whole) settled
