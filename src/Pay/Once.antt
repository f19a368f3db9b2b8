-- ===== src/Pay/Once.antt =====
-- app/pay-service/internal/application/pay.go: over any number of callbacks, a payment is given back
-- at most once.
use ticket_hub.Common.{
  ℕ, ◌+◌, ◌≤◌, ℤ, String, ◌≡◌, refl, sym, ap, subst, ◌∙◌, ◌⊎◌, inl, inr, Bool, not, ◌&&◌, Option,
  none, some, List, [], ◌∷◌, arith, Bool-cases, Option-cases, nat_eq, string_eq, int_eq, ==_refl,
}
use ticket_hub.Errors.{GoError, Result, ok, err, Result-cases, Status}
use ticket_hub.Action.{Action}
use ticket_hub.Lock.{Locker}
use ticket_hub.Pay.{
  refunded, Payment, Gateway, OrderPaymentClient, World, PayUsecase, found_or_none, refund_amount,
  is_refunded, is_paid, record_payment, refund_late, conclude, notify_order, replay_refund,
  dispatch, callback, IsPaymentStore, with_payment_lock, run_locked, call_callback,
}
use ticket_hub.Pay.Callback.{Refunded, callback_after_refund, late_refund}

abbrev pub count_refund : {G : Type 0} → ℕ → Result (Unit {0}) × G → Result (Unit {0}) × (G × ℕ)
count_refund k (ok a, g) = (ok a, (g, k + 1))
count_refund k (err e, g) = (err e, (g, k))

-- The gateway with a count of the refunds that succeeded.
abbrev pub counted : {G : Type 0} → Gateway G → Gateway (G × ℕ)
counted gateway = record {
  pay = λ p s. let (r, g) = gateway.pay p s.0 in (r, (g, s.1));
  check = λ n channel s. let (r, g) = gateway.check n channel s.0 in (r, (g, s.1));
  refund = λ refund s. count_refund s.1 (gateway.refund refund s.0);
}

abbrev pub with_count : {R G O L : Type 0} → PayUsecase R G O L → PayUsecase R (G × ℕ) O L
with_count u = record {
  repo = u.repo;
  gateway = counted u.gateway;
  orders = u.orders;
  locker = u.locker;
  lock_ttl = u.lock_ttl;
}

-- A callback: the amount, the channel, and whether the payment was made.
abbrev pub CallbackRequest : Type 0
CallbackRequest = ℤ × String × Bool

-- Callbacks for the order `n` one after the other, whatever they return.
unfoldable pub callbacks :
    {R G O L : Type 0}
    → PayUsecase R G O L
    → (GoError → Option Status)
    → ℤ
    → List CallbackRequest
    → World R G O L
    → World R G O L
callbacks u from_error n [] w = w
callbacks u from_error n ((amount_cent, channel, paid_flag) ∷ rest) w =
    callbacks u from_error n rest (call_callback u from_error n amount_cent channel paid_flag w).1

module _ {R G O L A : Type 0} (u : PayUsecase R G O L) (Q : R → G → Type 0)
    (body : Action (World R G O L) A) (w : World R G O L) (keep : Q w.payments w.channels)
    (runs : (v : World R G O L)
      → v.payments ≡ w.payments
      → v.channels ≡ w.channels
      → Q (body v).1.payments (body v).1.channels) where
  run_locked_keeps :
      (service : Locker L) (key : String) (answer : Result String × L)
      → Q
          (run_locked service key body w answer).1.payments
          (run_locked service key body w answer).1.channels
  unfolding run_locked
  run_locked_keeps service key (ok token, held) = runs (record w { locks = held }) refl refl
  run_locked_keeps service key (err e, held) = keep

  lock_from :
      (n : ℤ) (locker : Option (Locker L))
      → u.locker ≡ locker
      → Q (with_payment_lock u n body w).1.payments (with_payment_lock u n body w).1.channels
  unfolding with_payment_lock
  lock_from n none at = rw at (runs w refl refl)
  lock_from n (some service) at =
      rw at (run_locked_keeps service _ (service.acquire _ u.lock_ttl w.locks))

module _ {R G O L : Type 0} (u : PayUsecase R G O L) (from_error : GoError → Option Status)
    (laws : IsPaymentStore u.repo)
    (saves : (p : Payment) (s : R) → (u.repo.save p s).0 ≡ ok tt) where
  -- A world either counts as many refunds as `k`, or one more with the payment stored as refunded.
  abbrev Counts : ℤ → ℕ → R → G × ℕ → Type 0
  Counts n k payments channels =
      (channels.1 ≡ k) ⊎ ((channels.1 ≡ k + 1) × Refunded u.repo n payments)

  count_refund-cases :
      (k : ℕ) (x : Result (Unit {0}) × G)
      → ((a : Unit {0}) × ((count_refund k x).0 ≡ ok a) × ((count_refund k x).1.1 ≡ k + 1))
        ⊎ ((e : GoError) × ((count_refund k x).0 ≡ err e) × ((count_refund k x).1.1 ≡ k))
  count_refund-cases k (ok a, g) = inl (a, refl, refl)
  count_refund-cases k (err e, g) = inr (e, refl, refl)

  refund_late-Counts :
      (client : OrderPaymentClient O) (n amount : ℤ) (channel : String) (w : World R (G × ℕ) O L)
      → let w' = (refund_late (with_count u) client n amount channel w).1 in
        Counts n w.channels.1 w'.payments w'.channels
  unfolding refund_late
  refund_late-Counts client n amount channel w =
      elim (count_refund-cases w.channels.1
        (u.gateway.refund (late_refund n amount) w.channels.0)) [
          | inr (e, failed, same) ↦ inl (ground (arith, failed, same))
          | inl (a, given, more) ↦
              let p : Payment = record {
                order_number = n;
                amount_cent = amount;
                channel = channel;
                status = refunded;
              } in
              let saved = saves p w.payments in
              let seen = laws.save_find p w.payments n saved in
              inr (
                ground (arith, given, more, saved),
                (p, ground (arith, given, more, saved, seen, ==_refl n), refl),
              )
        ]

  notify_order-Counts :
      (n amount_cent : ℤ) (channel : String) (paid_flag : Bool) (w : World R (G × ℕ) O L)
      → let w' = (notify_order (with_count u) n amount_cent channel paid_flag w).1 in
        Counts n w.channels.1 w'.payments w'.channels
  unfolding notify_order conclude record_payment
  notify_order-Counts n amount_cent channel paid_flag w = elim (Option-cases u.orders) [
    | inl alone ↦ inl (ground (arith, alone))
    | inr (client, linked) ↦
        elim (Result-cases (client.handle_payment_callback n amount_cent paid_flag w.orders).0) [
          | inl (x, failed) ↦ inl (ground (arith, linked, failed))
          | inr (result, answer) ↦ elim (Bool-cases result.refund_required) [
            | inr kept ↦ inl (ground (arith, linked, answer, kept))
            | inl needed ↦
                let v : World R (G × ℕ) O L = record w {
                  orders = (client.handle_payment_callback n amount_cent paid_flag w.orders).1;
                } in
                let whole : notify_order (with_count u) n amount_cent channel paid_flag w
                    ≡ refund_late (with_count u) client n (refund_amount amount_cent result) channel
                        v =
                  ground (arith, linked, answer, needed) in
                rw whole (refund_late-Counts client n (refund_amount amount_cent result) channel v)
          ]
        ]
  ]

  callback-Counts :
      (n amount_cent : ℤ) (channel : String) (paid_flag : Bool) (w : World R (G × ℕ) O L)
      → let w' = (callback (with_count u) from_error n amount_cent channel paid_flag w).1 in
        Counts n w.channels.1 w'.payments w'.channels
  unfolding callback dispatch replay_refund
  callback-Counts n amount_cent channel paid_flag w =
      let notified =
        λ (whole : callback (with_count u) from_error n amount_cent channel paid_flag w
            ≡ notify_order (with_count u) n amount_cent channel paid_flag w).
          subst (λ t. Counts n w.channels.1 t.1.payments t.1.channels) (sym whole)
            (notify_order-Counts n amount_cent channel paid_flag w) in
      elim (Result-cases (found_or_none from_error (u.repo.find n w.payments))) [
        | inl (e, failed) ↦ inl (ground (arith, failed))
        | inr (none, read) ↦ notified (ground (arith, read))
        | inr (some p, read) ↦ elim (Bool-cases (is_refunded p.status)) [
          | inl before ↦ elim (Bool-cases paid_flag) [
            | inr unpaid ↦ inl (ground (arith, read, before, unpaid))
            | inl made ↦ elim (Option-cases u.orders) [
              | inl alone ↦ inl (ground (arith, read, before, made, alone))
              | inr (client, linked) ↦ inl (ground (arith, read, before, made, linked))
            ]
          ]
          | inr not_refunded ↦ elim (Bool-cases (is_paid p.status && not paid_flag)) [
            | inl ignored ↦ inl (ground (arith, read, not_refunded, ignored))
            | inr asked ↦ notified (ground (arith, read, not_refunded, asked))
          ]
        ]
      ]

  call_callback-Counts :
      (n amount_cent : ℤ) (channel : String) (paid_flag : Bool) (w : World R (G × ℕ) O L)
      → let w' = (call_callback (with_count u) from_error n amount_cent channel paid_flag w).1 in
        Counts n w.channels.1 w'.payments w'.channels
  unfolding call_callback
  call_callback-Counts n amount_cent channel paid_flag w =
      lock_from (with_count u) (Counts n w.channels.1) _ w (inl refl)
        (λ v same count.
          subst
            (λ t.
              Counts n t.1
                (callback (with_count u) from_error n amount_cent channel paid_flag v).1.payments
                (callback (with_count u) from_error n amount_cent channel paid_flag v).1.channels)
            count (callback-Counts n amount_cent channel paid_flag v))
        n u.locker refl

  call_callback_after_refund :
      (n amount_cent : ℤ) (channel : String) (paid_flag : Bool) (w : World R (G × ℕ) O L)
      → Refunded u.repo n w.payments
      → let w' = (call_callback (with_count u) from_error n amount_cent channel paid_flag w).1 in
        (w'.payments ≡ w.payments) × (w'.channels ≡ w.channels)
  unfolding call_callback
  call_callback_after_refund n amount_cent channel paid_flag w before =
      lock_from (with_count u) (λ r g. (r ≡ w.payments) × (g ≡ w.channels)) _ w (refl, refl)
        (λ v same count.
          let kept =
            callback_after_refund (with_count u) from_error n amount_cent channel paid_flag v
              (subst (Refunded u.repo n) (sym same) before) in
          (kept.0 ∙ same, kept.1 ∙ count))
        n u.locker refl

  callbacks_after_refund :
      (n : ℤ) (rs : List CallbackRequest) (w : World R (G × ℕ) O L)
      → Refunded u.repo n w.payments
      → (callbacks (with_count u) from_error n rs w).channels ≡ w.channels
  unfolding callbacks
  callbacks_after_refund n [] w before = refl
  callbacks_after_refund n ((amount_cent, channel, paid_flag) ∷ rs) w before =
      let kept = call_callback_after_refund n amount_cent channel paid_flag w before in
      callbacks_after_refund n rs _ (subst (Refunded u.repo n) (sym kept.0) before) ∙ kept.1

  -- However many callbacks come in for an order, with or without a lock service, and whatever they
  -- and the order service say, the payment channel carries out at most one refund for it. The
  -- repository keeps its law, and its saves succeed.
  pub callbacks_refund_once :
      (n : ℤ) (rs : List CallbackRequest) (w : World R (G × ℕ) O L)
      → (callbacks (with_count u) from_error n rs w).channels.1 ≤ w.channels.1 + 1
  unfolding callbacks
  callbacks_refund_once n [] w = omega arith
  callbacks_refund_once n ((amount_cent, channel, paid_flag) ∷ rs) w =
      let w' = (call_callback (with_count u) from_error n amount_cent channel paid_flag w).1 in
      elim (call_callback-Counts n amount_cent channel paid_flag w) [
        | inl same ↦ omega (arith, same, callbacks_refund_once n rs w')
        | inr (more, before) ↦
            let kept = ap (λ t. t.1) (callbacks_after_refund n rs w' before) in
            omega (arith, more, kept)
      ]
