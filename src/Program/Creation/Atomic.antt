-- ===== src/Program/Creation/Atomic.antt =====
-- app/program-service/internal/application/create_order.go: the seats of a purchase are locked
-- exactly if its message was published.
use ticket_hub.Common.{
  ℤ, String, ◌≡◌, refl, sym, subst, ◌⊎◌, inl, inr, true, false, arith, Option-cases, nat_eq,
  string_eq, int_eq,
}
use ticket_hub.Errors.{
  new_error, duplicate_submission, too_many_requests, GoError, Result, ok, err, Result-cases,
}
use ticket_hub.Program.{CreateOrderCommand}
use ticket_hub.Program.Idempotency.{
  IdempotencyState, acquired, processing, completed, IdempotencyResult,
}
use ticket_hub.Program.Creation.{
  CreateOrderEvent, Message, World, CreateOrderUsecase, validate_idempotency_key, event_of,
  message_of, after_publish, reserve, attempt, settle_key, with_key, check_validator, check_rate,
  create_async,
}
use ticket_hub.Program.Creation.Outcomes.{
  IsInventory, IsMessage, Reserved, Unreserved, reserved, refused, stuck, Outcome, accepted,
  replayed, rejected, left_locked, Reserves, Ends,
}

module _ {T K N V E : Type 0} (u : CreateOrderUsecase T K N V E) (Same : V → V → Type 0)
    (encode : CreateOrderEvent → Result String) (created_at occurred_at : ℤ) where
  settle_key-Outcome :
      (cmd : CreateOrderCommand) (keys : K) (numbers : N) (fingerprint : String)
      (w : World T K N V E) (t : Result ℤ × World T K N V E)
      → Reserves u Same encode created_at occurred_at cmd numbers w t
      → let t' = settle_key u cmd fingerprint t.0 t.1 in
        Outcome u Same encode created_at occurred_at cmd keys numbers w.inventory t'.1.inventory
          w.events t'.1.events t'.0
  unfolding settle_key
  settle_key-Outcome cmd keys numbers fingerprint w (ok n, w') (reserved m same h) =
      let exact : n ≡ m = ground (arith, same) in
      let h' =
        subst
          (Reserved u Same encode created_at occurred_at cmd numbers w.inventory w'.inventory
            w.events w'.events)
          (sym exact) h in
      let next : World T K N V E = record w' {
        keys = (u.complete cmd.request_id fingerprint n u.result_ttl w'.keys).1;
      } in
      let over : (r : Result ℤ)
          → settle_key u cmd fingerprint (ok n) w' ≡ (r, next)
          → (r ≡ ok n)
            ⊎ ((p : String) × (k : K) × (e : GoError) × ((u.complete cmd.request_id p n u.result_ttl
                    k).0
                  ≡ err e)
                × (r ≡ err e))
          → let t' = settle_key u cmd fingerprint (ok n) w' in
            Outcome u Same encode created_at occurred_at cmd keys numbers w.inventory t'.1.inventory
              w.events t'.1.events t'.0 =
        λ r whole how.
          subst
            (λ (x : Result ℤ × World T K N V E).
              Outcome u Same encode created_at occurred_at cmd keys numbers w.inventory
                x.1.inventory w.events x.1.events x.0)
            (sym whole) (accepted n how h') in
      elim (Result-cases (u.complete cmd.request_id fingerprint n u.result_ttl w'.keys).0) [
        | inl (e, lost) ↦
            over (err e) (ground (arith, lost)) (inr (fingerprint, w'.keys, e, lost, refl))
        | inr (a, kept) ↦ over (ok n) (ground (arith, kept)) (inl refl)
      ]
  settle_key-Outcome cmd keys numbers fingerprint w (err e, w') (reserved m same h) =
      absurd (ground (arith, same))
  settle_key-Outcome cmd keys numbers fingerprint w (ok n, w') (refused e same h) =
      absurd (ground (arith, same))
  settle_key-Outcome cmd keys numbers fingerprint w (err x, w') (refused e same h) =
      rejected e same h
  settle_key-Outcome cmd keys numbers fingerprint w (ok n, w') (stuck e e' same h) =
      absurd (ground (arith, same))
  settle_key-Outcome cmd keys numbers fingerprint w (err x, w') (stuck e e' same h) =
      left_locked e e' same h

  module _ (Valid : V → Type 0) (laws : IsInventory u Valid Same) where
    untouched :
        (cmd : CreateOrderCommand) (numbers : N) (v : V) (s : E) (e : GoError)
        → Unreserved u Same encode created_at occurred_at cmd numbers v v s s e
    untouched cmd numbers v s e = record { inventory_lem = laws.same_refl v; events_lem = inl refl }

    reserve-Reserves :
        (cmd : CreateOrderCommand) (numbers : N) (n i : ℤ) (message : Message) (w : World T K N V E)
        → Valid w.inventory
        → IsMessage u Same encode created_at occurred_at cmd numbers n i message
        → Reserves u Same encode created_at occurred_at cmd numbers w (reserve u cmd n i message w)
    unfolding reserve after_publish
    reserve-Reserves cmd numbers n i message w valid own =
        elim (Result-cases (u.lock_seats cmd n i w.inventory).0) [
          | inl (e, failed) ↦ refused e (ground (arith, failed)) (record {
            inventory_lem =
                subst (Same w.inventory) (ground (arith, failed))
                  (laws.lock_failed cmd n i w.inventory e failed);
            events_lem = inl (ground (arith, failed));
          })
          | inr (seats, locked) ↦ elim (Result-cases (u.publish message w.events).0) [
            | inr (a, published) ↦ reserved n (ground (arith, locked, published)) (record {
              identifier_id = i;
              message = message;
              seats = seats;
              message_lem = own;
              lock_lem = locked;
              inventory_lem = ground (arith, locked, published);
              publish_lem = published;
              events_lem = ground (arith, locked, published);
            })
            | inl (e, unpublished) ↦
                elim (Result-cases
                  (u.rollback_seats cmd n i (u.lock_seats cmd n i w.inventory).1).0) [
                    | inl (e', failed) ↦
                        stuck e e' (ground (arith, locked, unpublished, failed)) (record {
                          number = n;
                          identifier_id = i;
                          message = message;
                          seats = seats;
                          message_lem = own;
                          lock_lem = locked;
                          publish_lem = unpublished;
                          events_lem = ground (arith, locked, unpublished, failed);
                          rollback_lem = failed;
                          inventory_lem = ground (arith, locked, unpublished, failed);
                        })
                    | inr (b, back) ↦
                        refused e (ground (arith, locked, unpublished, back)) (record {
                          inventory_lem =
                              subst (Same w.inventory) (ground (arith, locked, unpublished, back))
                                (laws.lock_rolled_back cmd n i w.inventory seats valid locked back);
                          events_lem = inr (
                            n,
                            i,
                            message,
                            own,
                            unpublished,
                            ground (arith, locked, unpublished, back),
                          );
                        })
                  ]
          ]
        ]

    attempt-Reserves :
        (cmd : CreateOrderCommand) (w : World T K N V E)
        → Valid w.inventory
        → Reserves u Same encode created_at occurred_at cmd w.numbers w
            (attempt u encode created_at occurred_at cmd w)
    unfolding attempt
    attempt-Reserves cmd w valid =
        let fails : (e : GoError) (n : N)
            → attempt u encode created_at occurred_at cmd w ≡ (err e, record w { numbers = n })
            → Reserves u Same encode created_at occurred_at cmd w.numbers w
                (attempt u encode created_at occurred_at cmd w) =
          λ e n whole.
            subst (Reserves u Same encode created_at occurred_at cmd w.numbers w) (sym whole)
              (refused e refl (untouched cmd w.numbers w.inventory w.events e)) in
        elim (Result-cases (u.calculate_amount cmd)) [
          | inl (e, failed) ↦ fails e w.numbers (ground (arith, failed))
          | inr (amount, priced) ↦
              elim (Result-cases (u.next_order_number cmd.user_id w.numbers).0) [
                | inl (e, failed) ↦
                    fails e (u.next_order_number cmd.user_id w.numbers).1
                      (ground (arith, priced, failed))
                | inr (n, numbered) ↦
                    let w1 : World T K N V E = record w {
                      numbers = (u.next_order_number cmd.user_id w.numbers).1;
                    } in
                    elim (Result-cases (u.next_id w1.numbers).0) [
                      | inl (e, failed) ↦
                          fails e (u.next_id w1.numbers).1
                            (ground (arith, priced, numbered, failed))
                      | inr (i, named) ↦
                          let w2 : World T K N V E = record w {
                            numbers = (u.next_id w1.numbers).1;
                          } in
                          elim (Result-cases (encode (event_of cmd n amount i created_at))) [
                            | inl (e, failed) ↦
                                fails e w2.numbers (ground (arith, priced, numbered, named, failed))
                            | inr (payload, encoded) ↦
                                let whole : attempt u encode created_at occurred_at cmd w
                                    ≡ reserve u cmd n i (message_of n i occurred_at payload) w2 =
                                  ground (arith, priced, numbered, named, encoded) in
                                subst
                                  (Reserves u Same encode created_at occurred_at cmd w.numbers w)
                                  (sym whole)
                                  (reserve-Reserves cmd w.numbers n i
                                    (message_of n i occurred_at payload) w2 valid
                                    (record {
                                      amount = amount;
                                      payload = payload;
                                      amount_lem = priced;
                                      number_lem = numbered;
                                      identifier_lem = named;
                                      payload_lem = encoded;
                                      topic_lem = refl;
                                      key_lem = refl;
                                      event_id_lem = refl;
                                      schema_lem = refl;
                                      time_lem = refl;
                                      content_lem = refl;
                                    }))
                          ]
                    ]
              ]
        ]

    with_key_from :
        (state : IdempotencyState) (cmd : CreateOrderCommand) (keys : K) (fingerprint : String)
        (found : IdempotencyResult) (w : World T K N V E)
        → found.state ≡ state
        → Valid w.inventory
        → (u.begin cmd.request_id fingerprint u.processing_ttl keys).0 ≡ ok found
        → let t = with_key u encode created_at occurred_at cmd fingerprint found w in
          Outcome u Same encode created_at occurred_at cmd keys w.numbers w.inventory t.1.inventory
            w.events t.1.events t.0
    unfolding with_key
    with_key_from completed cmd keys fingerprint found w at valid began =
        let whole : with_key u encode created_at occurred_at cmd fingerprint found w
            ≡ (ok found.order_number, w) =
          ground (arith, at) in
        subst
          (λ (x : Result ℤ × World T K N V E).
            Outcome u Same encode created_at occurred_at cmd keys w.numbers w.inventory
              x.1.inventory w.events x.1.events x.0)
          (sym whole) (replayed fingerprint found began at refl refl refl)
    with_key_from processing cmd keys fingerprint found w at valid began =
        let e = new_error duplicate_submission "order request is already processing" in
        let whole : with_key u encode created_at occurred_at cmd fingerprint found w ≡ (err e, w) =
          ground (arith, at) in
        subst
          (λ (x : Result ℤ × World T K N V E).
            Outcome u Same encode created_at occurred_at cmd keys w.numbers w.inventory
              x.1.inventory w.events x.1.events x.0)
          (sym whole) (rejected e refl (untouched cmd w.numbers w.inventory w.events e))
    with_key_from acquired cmd keys fingerprint found w at valid began =
        let t = attempt u encode created_at occurred_at cmd w in
        let whole : with_key u encode created_at occurred_at cmd fingerprint found w
            ≡ settle_key u cmd fingerprint t.0 t.1 =
          ground (arith, at) in
        subst
          (λ (x : Result ℤ × World T K N V E).
            Outcome u Same encode created_at occurred_at cmd keys w.numbers w.inventory
              x.1.inventory w.events x.1.events x.0)
          (sym whole)
          (settle_key-Outcome cmd keys w.numbers fingerprint w t (attempt-Reserves cmd w valid))

    check_rate-cases :
        (cmd : CreateOrderCommand) (w : World T K N V E)
        → (limits : T) × ((check_rate u cmd w ≡ (ok tt, record w { limits = limits }))
            ⊎ ((e : GoError) × (check_rate u cmd w ≡ (err e, record w { limits = limits }))))
    unfolding check_rate
    check_rate-cases cmd w = elim (Option-cases u.rate_limiter) [
      | inl free ↦ (w.limits, inl (ground (arith, free)))
      | inr (allow, limited) ↦ elim (Result-cases (allow cmd w.limits).0) [
        | inl (e, failed) ↦ ((allow cmd w.limits).1, inr (e, ground (arith, limited, failed)))
        | inr (true, allowed) ↦ ((allow cmd w.limits).1, inl (ground (arith, limited, allowed)))
        | inr (false, allowed) ↦ (
          (allow cmd w.limits).1,
          inr (
            new_error too_many_requests "purchase request rate exceeded",
            ground (arith, limited, allowed),
          ),
        )
      ]
    ]

    -- A purchase, whatever the services answer, ends in one of four ways. The seats are locked for
    -- an order number, which is the result unless the key could not be completed, and the message of
    -- the purchase is published: it has the next order number and identifier, the amount that was
    -- calculated and the fields of the purchase. Or `Begin` answers that the request was completed
    -- before: the result is the number of that order, and neither the inventory nor the messages
    -- change. Or it is refused with an error, and the same tickets and seats are to be had as before;
    -- no message was sent, or the publication of the message of the purchase failed with that error.
    -- Or the seats were locked, the publication of that message failed, `RollbackSeats` was called
    -- for them and failed too, and the result joins these two errors. The inventory is one that keeps
    -- `IsInventory` and is valid.
    pub create_async-Ends :
        (trimmed_length : String → ℤ) (digest : CreateOrderCommand → Result String)
        (cmd : CreateOrderCommand) (w : World T K N V E)
        → Valid w.inventory
        → Ends u Same encode created_at occurred_at cmd w
            (create_async u trimmed_length digest encode created_at occurred_at cmd w)
    unfolding create_async
    create_async-Ends trimmed_length digest cmd w valid =
        let whole = create_async u trimmed_length digest encode created_at occurred_at cmd w in
        let fails : (e : GoError) (limits : T) (keys : K)
            → whole ≡ (err e, record w { limits = limits; keys = keys })
            → Ends u Same encode created_at occurred_at cmd w whole =
          λ e limits keys same.
            subst (Ends u Same encode created_at occurred_at cmd w) (sym same)
              (rejected e refl (untouched cmd w.numbers w.inventory w.events e)) in
        elim (Result-cases (check_validator u cmd)) [
          | inl (e, failed) ↦ fails e w.limits w.keys (ground (arith, failed))
          | inr (a, checked) ↦
              let (limits, rate) = check_rate-cases cmd w in
              elim rate [
                | inr (e, limited) ↦ fails e limits w.keys (ground (arith, checked, limited))
                | inl passed ↦
                    elim (Result-cases (validate_idempotency_key (trimmed_length cmd.request_id))) [
                      | inl (e, failed) ↦
                          fails e limits w.keys (ground (arith, checked, passed, failed))
                      | inr (b, fits) ↦ elim (Result-cases (digest cmd)) [
                        | inl (e, failed) ↦
                            fails e limits w.keys (ground (arith, checked, passed, fits, failed))
                        | inr (fingerprint, digested) ↦
                            elim (Result-cases
                              (u.begin cmd.request_id fingerprint u.processing_ttl w.keys).0) [
                                | inl (e, failed) ↦
                                    fails e limits
                                      (u.begin cmd.request_id fingerprint u.processing_ttl w.keys).1
                                      (ground (arith, checked, passed, fits, digested, failed))
                                | inr (found, began) ↦
                                    let v : World T K N V E = record w {
                                      limits = limits;
                                      keys =
                                          (u.begin cmd.request_id fingerprint u.processing_ttl
                                            w.keys).1;
                                    } in
                                    let rest : whole
                                        ≡ with_key u encode created_at occurred_at cmd fingerprint
                                            found v =
                                      ground (arith, checked, passed, fits, digested, began) in
                                    subst (Ends u Same encode created_at occurred_at cmd w)
                                      (sym rest)
                                      (with_key_from found.state cmd w.keys fingerprint found v refl
                                        valid began)
                              ]
                      ]
                    ]
              ]
        ]
