-- ===== src/Order/Workers/Polling.antt =====
-- app/order-service/internal/application/cancel_order_worker.go with order_command.go: a poll that
-- succeeds leaves none of the orders of its messages unpaid and open.
use ticket_hub.Common.{
  ℕ, suc, ℤ, String, ◌≡◌, refl, sym, ap, subst, ◌∙◌, inl, inr, Option, none, some, List, [], ◌∷◌,
  arith, nat_eq, string_eq, int_eq, All,
}
use ticket_hub.Errors.{GoError, Result, ok, err, Result-cases, Status}
use ticket_hub.Lock.{Locker}
use ticket_hub.DelayQueue.{Message, Queue}
use ticket_hub.Order.Domain.{Order, pays, cancels, refunds}
use ticket_hub.Order.Store.{IsOrderStore}
use ticket_hub.Order.Commands.{World}
use ticket_hub.Order.Commands.Evolution.{Evolves, stays, steps, AllEvolve, IsKeyed}
use ticket_hub.Order.Commands.History.{execute-AllEvolve, evolve-IsKeyed}
use ticket_hub.Order.Commands.Service.{
  OrderCommandService, with_order_lock, run_locked, call_close_expired, execute, closes_expired,
}
use ticket_hub.Order.Workers.{
  ExpiredOrderCloser, handle_message, settle_message, settle_messages, poll,
  cancel_order_delay_topic,
}
use ticket_hub.Order.Workers.Closing.{IsClosed, FindsAll, close_expired-IsClosed}

-- What a command does to an order never opens it again.
evolve-IsClosed :
    {S : Type 0} (view : S → ℤ → Option Order) (n u : ℤ) (s s' : S)
    → AllEvolve view s s'
    → IsClosed view n u s
    → IsClosed view n u s'
evolve-IsClosed view n u s s' evolve closed o at user waiting = one (evolve n)
  where
    one : Evolves (view s n) (view s' n) → ⊥
    one (stays same) = closed o (sym same ∙ at) user waiting
    one (steps x y before after (pays p r) same) = ground (arith, after, at, r, waiting)
    one (steps x y before after (cancels p r) same) = ground (arith, after, at, r, waiting)
    one (steps x y before after (refunds p r) same) = ground (arith, after, at, r, waiting)

module _ {S P L R : Type 0} (Q : S → Type 0) (initial : R)
    (body : World S P L → R × Result (Unit {0}) × World S P L) (w : World S P L)
    (runs : (v : World S P L)
      → v.orders ≡ w.orders
      → (body v).1 ≡ ok tt
      → Q (body v).2.orders) where
  run_locked_gives :
      (service : Locker L) (key : String) (answer : Result String × L)
      → (run_locked service key initial body w answer).1 ≡ ok tt
      → Q (run_locked service key initial body w answer).2.orders
  unfolding run_locked
  run_locked_gives service key (ok token, held) done = runs (record w { locks = held }) refl done
  run_locked_gives service key (err e, held) done = absurd (ground (arith, done))

  -- A call under the lock that succeeds has run its body to a success, on the same orders.
  lock_gives :
      (locker : Option (Locker L)) (ttl n : ℤ)
      → (with_order_lock locker ttl n initial body w).1 ≡ ok tt
      → Q (with_order_lock locker ttl n initial body w).2.orders
  unfolding with_order_lock
  lock_gives none ttl n done = runs w refl done
  lock_gives (some service) ttl n done =
      run_locked_gives service _ (service.acquire _ ttl w.locks) done

-- The state of the service with the readings of its clock to come.
abbrev pub Clocked : Type 0 → Type 0 → Type 0 → Type 0
Clocked S P L = (ℕ → ℤ) × World S P L

-- `OrderCommandService` as the worker sees it.
abbrev pub expired_order_closer :
    {S P L : Type 0}
    → (GoError → Option Status)
    → OrderCommandService S P L
    → ExpiredOrderCloser (Clocked S P L)
expired_order_closer from_error s = record {
  close_expired = λ n u c.
      let (x, r, w) = call_close_expired from_error s (c.0 0) n u c.1 in (r, (λ i. c.0 (suc i), w));
}

module _ {S P L : Type 0} (from_error : GoError → Option Status) (s : OrderCommandService S P L)
    (view : S → ℤ → Option Order) (laws : IsOrderStore s.orders view)
    (finds : FindsAll from_error s.orders view) where
  call_close_expired-IsClosed :
      (now n u : ℤ) (w : World S P L)
      → IsKeyed view w.orders
      → (call_close_expired from_error s now n u w).1 ≡ ok tt
      → IsClosed view n u (call_close_expired from_error s now n u w).2.orders
  unfolding call_close_expired
  call_close_expired-IsClosed now n u w keyed done =
      lock_gives (IsClosed view n u) tt _ w
        (λ v same fine.
          close_expired-IsClosed s.orders s.program view laws from_error finds now n u v
            (subst (IsKeyed view) (sym same) keyed) fine)
        s.locker s.lock_ttl n done

  call_close_expired-AllEvolve :
      (now n u : ℤ) (w : World S P L)
      → IsKeyed view w.orders
      → AllEvolve view w.orders (call_close_expired from_error s now n u w).2.orders
  unfolding execute
  call_close_expired-AllEvolve now n u w keyed =
      execute-AllEvolve from_error s view laws (now, closes_expired n u) w keyed

  module _ {Q : Type 0} (decode : String → Result (ℤ × ℤ)) (queue : Queue Q) where
    abbrev closer : ExpiredOrderCloser (Clocked S P L)
    closer = expired_order_closer from_error s

    -- The order that a message names is not waiting for its payment.
    abbrev pub IsSettled : S → Message → Type 0
    IsSettled orders m = (n u : ℤ) → decode m.payload ≡ ok (n, u) → IsClosed view n u orders

    settled_orders :
        (m : Message) (q : Q) (clock : ℕ → ℤ) (w : World S P L) (n u : ℤ)
        → decode m.payload ≡ ok (n, u)
        → (settle_message decode queue closer m (q, (clock, w))).1.1.1.orders
          ≡ (call_close_expired from_error s (clock 0) n u w).2.orders
    unfolding settle_message handle_message
    settled_orders m q clock w n u read =
        elim (Result-cases (call_close_expired from_error s (clock 0) n u w).1) [
          | inl (e, failed) ↦ ground (arith, read, failed)
          | inr (x, fine) ↦ ground (arith, read, fine)
        ]

    settled_done :
        (m : Message) (q : Q) (clock : ℕ → ℤ) (w : World S P L) (n u : ℤ)
        → decode m.payload ≡ ok (n, u)
        → (settle_message decode queue closer m (q, (clock, w))).0 ≡ ok tt
        → (call_close_expired from_error s (clock 0) n u w).1 ≡ ok tt
    unfolding settle_message handle_message
    settled_done m q clock w n u read done =
        elim (Result-cases (call_close_expired from_error s (clock 0) n u w).1) [
          | inl (e, failed) ↦ absurd (ground (arith, read, failed, done))
          | inr (x, fine) ↦ fine
        ]

    settle_message-AllEvolve :
        (m : Message) (q : Q) (c : Clocked S P L)
        → IsKeyed view c.1.orders
        → AllEvolve view c.1.orders (settle_message decode queue closer m (q, c)).1.1.1.orders
    unfolding settle_message handle_message
    settle_message-AllEvolve m q (clock, w) keyed = elim (Result-cases (decode m.payload)) [
      | inl (e, bad) ↦
          let same : (settle_message decode queue closer m (q, (clock, w))).1.1.1.orders
              ≡ w.orders =
            ground (arith, bad) in
          λ k. stays (ap (λ t. view t k) same)
      | inr ((n, u), read) ↦
          subst (AllEvolve view w.orders) (sym (settled_orders m q clock w n u read))
            (call_close_expired-AllEvolve (clock 0) n u w keyed)
    ]

    settle_message-IsSettled :
        (m : Message) (q : Q) (c : Clocked S P L)
        → IsKeyed view c.1.orders
        → (settle_message decode queue closer m (q, c)).0 ≡ ok tt
        → IsSettled (settle_message decode queue closer m (q, c)).1.1.1.orders m
    settle_message-IsSettled m q (clock, w) keyed done n u read =
        subst (IsClosed view n u) (sym (settled_orders m q clock w n u read)) (
          call_close_expired-IsClosed (clock 0) n u w keyed
            (settled_done m q clock w n u read done))

    -- Closed orders stay closed.
    abbrev StaysClosed : S → S → Type 0
    StaysClosed a b = (n u : ℤ) → IsClosed view n u a → IsClosed view n u b

    -- What holds of the orders after the loop, with what the loop started from.
    settle_messages-IsSettled :
        (ms : List Message) (x : Q × Clocked S P L)
        → IsKeyed view x.1.1.orders
        → (settle_messages decode queue closer ms x).0 ≡ ok tt
        → StaysClosed x.1.1.orders (settle_messages decode queue closer ms x).1.1.1.orders
          × All (IsSettled (settle_messages decode queue closer ms x).1.1.1.orders) ms
    unfolding settle_messages
    settle_messages-IsSettled [] x keyed done = (λ n u closed. closed, tt)
    settle_messages-IsSettled (m ∷ ms) (q, c) keyed done =
        let step = settle_message decode queue closer m (q, c) in
        let evolve = settle_message-AllEvolve m q c keyed in
        elim (Result-cases step.0) [
          | inl (e, failed) ↦ absurd (ground (arith, failed, done))
          | inr (x, fine) ↦
              let whole : settle_messages decode queue closer (m ∷ ms) (q, c)
                  ≡ settle_messages decode queue closer ms step.1 =
                ground (arith, fine) in
              let (later, rest) =
                settle_messages-IsSettled ms step.1
                  (evolve-IsKeyed from_error s view laws evolve keyed)
                  (sym (ap (λ (r : Result (Unit {0}) × (Q × Clocked S P L)). r.0) whole) ∙ done) in
              let first = settle_message-IsSettled m q c keyed fine in
              subst
                (λ (r : Result (Unit {0}) × (Q × Clocked S P L)).
                  StaysClosed c.1.orders r.1.1.1.orders × All (IsSettled r.1.1.1.orders) (m ∷ ms))
                (sym whole)
                (
                  λ n u closed.
                      later n u
                        (evolve-IsClosed view n u c.1.orders step.1.1.1.orders evolve closed),
                  (λ n u read. later n u (first n u read), rest),
                )
        ]

    -- A poll of the worker over the order service, with any queue, any lock service and any program
    -- service, that succeeds leaves none of the orders waiting for its payment that the messages it
    -- claimed name with their users.
    pub poll-IsSettled :
        (now limit : ℤ) (q : Q) (c : Clocked S P L) (ms : List Message)
        → IsKeyed view c.1.orders
        → (queue.claim_due cancel_order_delay_topic now limit q).0 ≡ ok ms
        → (poll decode queue closer now limit (q, c)).0 ≡ ok tt
        → All (IsSettled (poll decode queue closer now limit (q, c)).1.1.1.orders) ms
    unfolding poll
    poll-IsSettled now limit q c ms keyed claims done =
        let q' = (queue.claim_due cancel_order_delay_topic now limit q).1 in
        let whole : poll decode queue closer now limit (q, c)
            ≡ settle_messages decode queue closer ms (q', c) =
          ground (arith, claims) in
        let fine = sym (ap (λ (r : Result (Unit {0}) × (Q × Clocked S P L)). r.0) whole) ∙ done in
        subst (λ (r : Result (Unit {0}) × (Q × Clocked S P L)). All (IsSettled r.1.1.1.orders) ms)
          (sym whole) (settle_messages-IsSettled ms (q', c) keyed fine).1
