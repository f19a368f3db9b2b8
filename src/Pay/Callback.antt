-- ===== src/Pay/Callback.antt =====
-- app/pay-service/internal/application/pay.go: what a callback of the payment channel comes to.
use ticket_hub.Common.{
  ℤ, String, ◌≡◌, refl, inl, inr, Bool, true, false, Option, none, some, arith, Bool-cases,
  Option-cases, nat_eq, string_eq, int_eq, ==_refl,
}
use ticket_hub.Errors.{GoError, ok, Result-cases, Status}
use ticket_hub.Pay.{
  paid, refunded, Payment, Refund, PaymentStore, OrderPaymentResult, OrderPaymentClient, World,
  PayUsecase, is_refunded, is_paid, refund_request_id, found_or_none, refund_amount, refund_late,
  conclude, notify_order, replay_refund, dispatch, callback, IsPaymentStore,
}

-- The payment of the order `n` is stored as refunded.
abbrev pub Refunded : {R : Type 0} → PaymentStore R → ℤ → R → Type 0
Refunded repo n s = (p : Payment) × (repo.find n s ≡ ok p) × (p.status ≡ refunded)

abbrev pub late_refund : ℤ → ℤ → Refund
late_refund n amount = record {
  request_id = refund_request_id n;
  order_number = n;
  amount_cent = amount;
  reason = "payment received after order cancellation";
}

module _ {R G O L : Type 0} (u : PayUsecase R G O L) (from_error : GoError → Option Status) where
  -- A callback for a payment that is stored as refunded asks for no other refund: it leaves the
  -- payments and the payment channel as they were.
  pub callback_after_refund :
      (n amount_cent : ℤ) (channel : String) (paid_flag : Bool) (w : World R G O L)
      → Refunded u.repo n w.payments
      → let w' = (callback u from_error n amount_cent channel paid_flag w).1 in
        (w'.payments ≡ w.payments) × (w'.channels ≡ w.channels)
  unfolding callback dispatch replay_refund
  callback_after_refund n amount_cent channel paid_flag w (p, found, status) =
      elim (Bool-cases paid_flag) [
        | inr unpaid ↦
            (ground (arith, found, status, unpaid), ground (arith, found, status, unpaid))
        | inl made ↦ elim (Option-cases u.orders) [
          | inl alone ↦ (
            ground (arith, found, status, made, alone),
            ground (arith, found, status, made, alone),
          )
          | inr (client, there) ↦ (
            ground (arith, found, status, made, there),
            ground (arith, found, status, made, there),
          )
        ]
      ]

  -- A payment that is stored as paid is not closed by a callback of a failed payment: nothing
  -- changes.
  pub paid_stays_paid :
      (n amount_cent : ℤ) (channel : String) (w : World R G O L) (p : Payment)
      → u.repo.find n w.payments ≡ ok p
      → p.status ≡ paid
      → callback u from_error n amount_cent channel false w ≡ (ok tt, w)
  unfolding callback dispatch
  paid_stays_paid n amount_cent channel w p found status = ground (arith, found, status)

  module _ (client : OrderPaymentClient O) (linked : u.orders ≡ some client)
      (laws : IsPaymentStore u.repo) where
    refund_late_lem :
        (n amount : ℤ) (channel : String) (w : World R G O L)
        → (refund_late u client n amount channel w).0 ≡ ok tt
        → let w' = (refund_late u client n amount channel w).1 in
          ((u.gateway.refund (late_refund n amount) w.channels).0 ≡ ok tt)
          × (w'.channels ≡ (u.gateway.refund (late_refund n amount) w.channels).1)
          × (u.repo.find n w'.payments
              ≡ ok (record {
                order_number = n;
                amount_cent = amount;
                channel = channel;
                status = refunded;
              }))
          × ((client.mark_order_refunded n w.orders).0 ≡ ok tt)
          × (w'.orders ≡ (client.mark_order_refunded n w.orders).1)
    unfolding refund_late
    refund_late_lem n amount channel w e =
        elim (Result-cases (u.gateway.refund (late_refund n amount) w.channels).0) [
          | inl (x, failed) ↦ absurd (ground (arith, failed))
          | inr (a, given) ↦
              let p : Payment = record {
                order_number = n;
                amount_cent = amount;
                channel = channel;
                status = refunded;
              } in
              elim (Result-cases (u.repo.save p w.payments).0) [
                | inl (x, failed) ↦ absurd (ground (arith, given, failed))
                | inr (b, saved) ↦
                    let seen = laws.save_find p w.payments n saved in
                    (
                      ground (arith, given),
                      ground (arith, given, saved),
                      ground (arith, given, saved, seen, ==_refl n),
                      ground (arith, given, saved),
                      ground (arith, given, saved),
                    )
              ]
        ]

    dispatch_made :
        (n amount_cent : ℤ) (channel : String) (found : Option Payment) (w : World R G O L)
        → ((p : Payment) → found ≡ some p → is_refunded p.status ≡ false)
        → dispatch u n amount_cent channel true found w
          ≡ notify_order u n amount_cent channel true w
    unfolding dispatch
    dispatch_made n amount_cent channel none w open_payment = refl
    dispatch_made n amount_cent channel (some p) w open_payment =
        ground (arith, open_payment p refl, Bool-cases (is_paid p.status))

    -- A callback of a payment that was made and was not refunded before, which succeeds and for
    -- which the order service asks for a refund, has paid the amount back on the payment channel
    -- once, has stored the payment as refunded with that amount, and has told the order service so,
    -- in the state in which the order service was left by its own answer.
    pub late_payment_paid_back :
        (n amount_cent : ℤ) (channel : String) (w : World R G O L) (found : Option Payment)
        (result : OrderPaymentResult) (orders : O)
        → found_or_none from_error (u.repo.find n w.payments) ≡ ok found
        → ((p : Payment) → found ≡ some p → is_refunded p.status ≡ false)
        → client.handle_payment_callback n amount_cent true w.orders ≡ (ok result, orders)
        → result.refund_required ≡ true
        → (callback u from_error n amount_cent channel true w).0 ≡ ok tt
        → let w' = (callback u from_error n amount_cent channel true w).1 in
          let amount = refund_amount amount_cent result in
          ((u.gateway.refund (late_refund n amount) w.channels).0 ≡ ok tt)
          × (w'.channels ≡ (u.gateway.refund (late_refund n amount) w.channels).1)
          × (u.repo.find n w'.payments
              ≡ ok (record {
                order_number = n;
                amount_cent = amount;
                channel = channel;
                status = refunded;
              }))
          × ((client.mark_order_refunded n orders).0 ≡ ok tt)
          × (w'.orders ≡ (client.mark_order_refunded n orders).1)
    unfolding callback notify_order conclude
    late_payment_paid_back n amount_cent channel w found result orders read open_payment answer
          needed e =
        let whole : callback u from_error n amount_cent channel true w
            ≡ refund_late u client n (refund_amount amount_cent result) channel
                (record w { orders = orders }) =
          ground (
            arith,
            read,
            dispatch_made n amount_cent channel found w open_payment,
            answer,
            needed,
            linked,
          ) in
        rw whole (
          refund_late_lem n (refund_amount amount_cent result) channel
            (record w { orders = orders }) (ground (arith, whole, e)))
