-- ===== src/Order/Workers/Watching.antt =====
-- app/order-service/internal/application/create_order_consumer.go: an order that the consumer
-- creates, or finds, is watched by a message of the delay queue in memory until it is due.
use ticket_hub.Common.{
  ℤ, pos, String, ◌≡◌, refl, sym, ap, subst, ◌∙◌, inl, inr, false, ◌&&◌, Option, some, [], ◌∷◌,
  arith, Bool-cases, Option-cases, nat_eq, string_eq, int_eq, ◌+ℤ◌, ◌<ℤ◌, ltb_ℤ, leb_ℤ,
}
use ticket_hub.Common.Fmt.{show_ℤ}
use ticket_hub.Errors.{Code, GoError, Result, ok, Result-cases, Status}
use ticket_hub.Errors.Grpc.{is_code}
use ticket_hub.DelayQueue.{Message}
use ticket_hub.Order.Domain.{Order, no_pay}
use ticket_hub.Order.Store.{OrderStore, IsOrderStore}
use ticket_hub.Order.Commands.Evolution.{IsKeyed}
use ticket_hub.Order.Workers.{cancel_order_delay_topic}
use ticket_hub.Program.Creation.{CreateOrderEvent}
use ticket_hub.DelayQueue.{MemoryQueue, memory_queue}
use ticket_hub.DelayQueue.Operations.{enqueuing, call, run, maps_of}
use ticket_hub.DelayQueue.Invariant.{IsQueue, run-IsQueue}
use ticket_hub.DelayQueue.Waiting.{IsWaiting, enqueue-IsWaiting}
use ticket_hub.Order.Workers.{
  CreateOrderConsumer, ConsumerWorld, cancel_check, enqueue_cancel_check, is_no_pay, order_of,
  create, handle, consume_delay,
}

-- A save that succeeds puts the order under its number.
abbrev pub SavesAll : {S : Type 0} → OrderStore S → (S → ℤ → Option Order) → Type 0
SavesAll {S} store view =
    (o : Order) (s : S)
    → (store.save o s).0 ≡ ok tt
    → view (store.save o s).1 o.order_number ≡ some o

-- The message of an order names it with its user.
abbrev pub RoundTrips : (Order → Result String) → (String → Result (ℤ × ℤ)) → Type 0
RoundTrips encode decode =
    (o : Order) (payload : String)
    → encode o ≡ ok payload
    → decode payload ≡ ok (o.order_number, o.user_id)

module _ {S P D : Type 0} (view : S → ℤ → Option Order) (encode : Order → Result String)
    (decode : String → Result (ℤ × ℤ)) (c : CreateOrderConsumer S MemoryQueue P D) where
  -- The queue is well-formed, the order stands under its number for its user, and while it is
  -- unpaid a message waits to close it.
  abbrev pub IsWatched : ℤ → ℤ → ConsumerWorld S MemoryQueue P D → Type 0
  IsWatched n u w =
      IsQueue w.queue
      × (o : Order) × (view w.orders n ≡ some o)
      × (o.user_id ≡ u)
      × (o.status ≡ no_pay
          → (msg : Message) × IsWaiting (show_ℤ n) msg (maps_of cancel_order_delay_topic w.queue)
            × (decode msg.payload ≡ ok (n, u))
            × (msg.available_at ≡ o.created_at +ℤ c.cancel_in))

  module _ (set : c.cancel_queue ≡ some memory_queue) (delayed : pos 0 <ℤ c.cancel_in)
      (trips : RoundTrips encode decode) where
    enqueue_cancel_check-IsWatched :
        (n u : ℤ) (o : Order) (w : ConsumerWorld S MemoryQueue P D)
        → IsQueue w.queue
        → o.order_number ≡ n
        → o.user_id ≡ u
        → view w.orders n ≡ some o
        → (enqueue_cancel_check encode c o w).0 ≡ ok tt
        → IsWatched n u (enqueue_cancel_check encode c o w).1
    unfolding enqueue_cancel_check cancel_check call run
    enqueue_cancel_check-IsWatched n u o w well number user here done =
        let positive : leb_ℤ c.cancel_in (pos 0) ≡ false = ground (arith, delayed) in
        elim (Result-cases (encode o)) [
          | inl (e, bad) ↦ absurd (ground (arith, set, positive, bad, done))
          | inr (payload, good) ↦
              let msg : Message = cancel_check encode c o payload in
              let q = call (enqueuing msg) w.queue in
              let whole : (enqueue_cancel_check encode c o w).1 ≡ record w { queue = q } =
                ground (arith, set, positive, good) in
              let waits : IsWaiting (show_ℤ n) msg (maps_of cancel_order_delay_topic q) =
                subst (λ (k : ℤ). IsWaiting (show_ℤ k) msg (maps_of cancel_order_delay_topic q))
                  number (enqueue-IsWaiting msg w.queue) in
              let names : decode payload ≡ ok (n, u) = cc (trips o payload good, number, user) in
              subst (IsWatched n u) (sym whole) (
                run-IsQueue (enqueuing msg ∷ []) w.queue well,
                o,
                here,
                user,
                λ waiting. (msg, waits, names, refl),
              )
        ]

    create-IsWatched :
        (e : CreateOrderEvent) (now : ℤ) (w : ConsumerWorld S MemoryQueue P D)
        → IsQueue w.queue
        → SavesAll c.orders view
        → (create encode c now e w).0 ≡ ok tt
        → IsWatched e.order_number e.user_id (create encode c now e w).1
    unfolding create order_of
    create-IsWatched e now w well saves done =
        let o : Order = order_of now e in
        elim (Result-cases (c.orders.save o w.orders).0) [
          | inl (x, failed) ↦ absurd (ground (arith, failed, done))
          | inr (x, saved) ↦
              let w' : ConsumerWorld S MemoryQueue P D = record w {
                orders = (c.orders.save o w.orders).1;
              } in
              let whole : create encode c now e w ≡ enqueue_cancel_check encode c o w' =
                ground (arith, saved) in
              let fine =
                sym (ap (λ (r : Result (Unit {0}) × ConsumerWorld S MemoryQueue P D). r.0) whole)
                ∙ done in
              subst
                (λ (r : Result (Unit {0}) × ConsumerWorld S MemoryQueue P D).
                  IsWatched e.order_number e.user_id r.1)
                (sym whole)
                (enqueue_cancel_check-IsWatched e.order_number e.user_id o w' well refl refl
                  (saves o w.orders saved) fine)
        ]

    -- What an event leaves that is handled without an error and is not late.
    pub handle-IsWatched :
        (from_error : GoError → Option Status) (decode_event : String → Result CreateOrderEvent)
        → IsOrderStore c.orders view
        → SavesAll c.orders view
        → (now now' : ℤ) (event : String) (e : CreateOrderEvent)
          (w : ConsumerWorld S MemoryQueue P D)
        → IsKeyed view w.orders
        → IsQueue w.queue
        → decode_event event ≡ ok e
        → (ltb_ℤ (pos 0) c.max_delay && ltb_ℤ c.max_delay (consume_delay now e.created_at)) ≡ false
        → (handle encode c decode_event from_error now now' event w).0 ≡ ok tt
        → IsWatched e.order_number e.user_id
            (handle encode c decode_event from_error now now' event w).1
    unfolding handle
    handle-IsWatched from_error decode_event laws saves now now' event e w keyed well read early
          done =
        elim (Result-cases (c.orders.find e.order_number e.user_id w.orders)) [
          | inr (existing, found) ↦
              let (here, user) = laws.find_view e.order_number e.user_id w.orders existing found in
              elim (Bool-cases (is_no_pay existing.status)) [
                | inl unpaid ↦
                    let whole : handle encode c decode_event from_error now now' event w
                        ≡ enqueue_cancel_check encode c existing w =
                      ground (arith, read, found, unpaid) in
                    let fine =
                      sym (
                        ap (λ (r : Result (Unit {0}) × ConsumerWorld S MemoryQueue P D). r.0) whole)
                      ∙ done in
                    subst
                      (λ (r : Result (Unit {0}) × ConsumerWorld S MemoryQueue P D).
                        IsWatched e.order_number e.user_id r.1)
                      (sym whole)
                      (enqueue_cancel_check-IsWatched e.order_number e.user_id existing w well
                        (keyed e.order_number existing here) user here fine)
                | inr settled ↦
                    let whole : (handle encode c decode_event from_error now now' event w).1 ≡ w =
                      ground (arith, read, found, settled) in
                    subst (IsWatched e.order_number e.user_id) (sym whole) (
                      well,
                      existing,
                      here,
                      user,
                      λ waiting. absurd (ground (arith, settled, waiting)),
                    )
              ]
          | inl (x, missing) ↦ elim (Bool-cases (is_code from_error x Code.not_found)) [
            | inr other ↦ absurd (ground (arith, read, missing, other, done))
            | inl absent ↦
                let whole : handle encode c decode_event from_error now now' event w
                    ≡ create encode c now' e w =
                  ground (arith, read, missing, absent, early) in
                let fine =
                  sym (ap (λ (r : Result (Unit {0}) × ConsumerWorld S MemoryQueue P D). r.0) whole)
                  ∙ done in
                subst
                  (λ (r : Result (Unit {0}) × ConsumerWorld S MemoryQueue P D).
                    IsWatched e.order_number e.user_id r.1)
                  (sym whole) (create-IsWatched e now' w well saves fine)
          ]
        ]

  -- An event for an order that its user has is handled without a change to the orders, the inventory
  -- and the discarded orders.
  pub handle_again :
      (from_error : GoError → Option Status) (decode_event : String → Result CreateOrderEvent)
      (now now' : ℤ) (event : String) (e : CreateOrderEvent) (existing : Order)
      (w : ConsumerWorld S MemoryQueue P D)
      → decode_event event ≡ ok e
      → c.orders.find e.order_number e.user_id w.orders ≡ ok existing
      → ((handle encode c decode_event from_error now now' event w).1.orders ≡ w.orders)
        × ((handle encode c decode_event from_error now now' event w).1.program ≡ w.program)
        × ((handle encode c decode_event from_error now now' event w).1.discards ≡ w.discards)
  unfolding handle enqueue_cancel_check
  handle_again from_error decode_event now now' event e existing w read found =
      elim (Bool-cases (is_no_pay existing.status)) [
        | inr settled ↦ ground (arith, read, found, settled)
        | inl unpaid ↦ ground (
          arith,
          read,
          found,
          unpaid,
          Option-cases c.cancel_queue,
          Result-cases (encode existing),
        )
      ]
