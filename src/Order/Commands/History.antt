-- ===== src/Order/Commands/History.antt =====
-- app/order-service/internal/application/order_command.go: the life of an order over any sequence of
-- calls of the service.
use ticket_hub.Common.{
  ℤ, String, ◌≡◌, refl, sym, ap, subst, ◌∙◌, ◌⊎◌, Option, none, some, List, [], ◌∷◌, arith, nat_eq,
  string_eq, int_eq,
}
use ticket_hub.Errors.{GoError, Result, ok, err, Status}
use ticket_hub.Lock.{Locker}
use ticket_hub.Order.Domain
use ticket_hub.Order.Domain.{
  Order, no_pay, paid, cancel, refund, Step, pays, cancels, refunds, SameOrder,
}
use ticket_hub.Order.Store.{IsOrderStore}
use ticket_hub.Order.Commands.{World, zero_result}
use ticket_hub.Order.Commands.Evolution.{
  Evolves, stays, steps, AllEvolve, IsKeyed, cancel_order-AllEvolve, mark_order_paid-AllEvolve,
  close_expired-AllEvolve, handle_payment_callback-AllEvolve, mark_refunded-AllEvolve,
}
use ticket_hub.Order.Commands.Service.{
  execute_all, OrderCommandService, Command, cancels_order, closes_expired, marks_paid, calls_back,
  marks_refunded, with_order_lock, run_locked, call_cancel, call_close_expired, call_mark_paid,
  call_payment_callback, call_mark_refunded, execute, order_or_none,
}

-- The statuses that an order can come to.
pub data Reaches (s : Domain.Status) : Domain.Status → Type 0 where
  here : Reaches s s
  next : {t u : Domain.Status} → Reaches s t → Step t u → Reaches s u

module _ {S P L R : Type 0} (Q : S → Type 0) (initial : R)
    (body : World S P L → R × Result (Unit {0}) × World S P L) (w : World S P L) (keep : Q w.orders)
    (runs : (v : World S P L) → v.orders ≡ w.orders → Q (body v).2.orders) where
  run_locked_keeps :
      (service : Locker L) (key : String) (answer : Result String × L)
      → Q (run_locked service key initial body w answer).2.orders
  unfolding run_locked
  run_locked_keeps service key (ok token, held) = runs (record w { locks = held }) refl
  run_locked_keeps service key (err e, held) = keep

  -- The lock leaves the orders to the body, which runs at most once, on the same orders.
  lock_keeps :
      (locker : Option (Locker L)) (ttl n : ℤ)
      → Q (with_order_lock locker ttl n initial body w).2.orders
  unfolding with_order_lock
  lock_keeps none ttl n = runs w refl
  lock_keeps (some service) ttl n = run_locked_keeps service _ (service.acquire _ ttl w.locks)

module _ {S P L : Type 0} (from_error : GoError → Option Status) (s : OrderCommandService S P L)
    (view : S → ℤ → Option Order) (laws : IsOrderStore s.orders view) where
  -- A body that lets orders evolve does so from any world with the same orders.
  under_lock :
      {R : Type 0} (initial : R) (n : ℤ) (body : World S P L → R × Result (Unit {0}) × World S P L)
      (w : World S P L)
      → IsKeyed view w.orders
      → ((v : World S P L) → IsKeyed view v.orders → AllEvolve view v.orders (body v).2.orders)
      → AllEvolve view w.orders (with_order_lock s.locker s.lock_ttl n initial body w).2.orders
  under_lock initial n body w keyed evolve =
      lock_keeps (AllEvolve view w.orders) initial body w (λ m. stays refl)
        (λ v same.
          subst (λ t. AllEvolve view t (body v).2.orders) same
            (evolve v (subst (IsKeyed view) (sym same) keyed)))
        s.locker s.lock_ttl n

  order_or_none_keeps :
      (w : World S P L) (x : Result Order × World S P L)
      → AllEvolve view w.orders x.1.orders
      → AllEvolve view w.orders (order_or_none x).2.orders
  order_or_none_keeps w (ok o, v) h = h
  order_or_none_keeps w (err e, v) h = h

  -- No call does more than to take orders one step on.
  pub execute-AllEvolve :
      (c : ℤ × Command) (w : World S P L)
      → IsKeyed view w.orders
      → AllEvolve view w.orders (execute from_error s c w).orders
  unfolding execute call_cancel call_close_expired call_mark_paid call_payment_callback
      call_mark_refunded
  execute-AllEvolve (now, cancels_order n u) w keyed =
      under_lock tt n _ w keyed
        (λ v k. cancel_order-AllEvolve s.orders s.program view laws v k now n u)
  execute-AllEvolve (now, closes_expired n u) w keyed =
      under_lock tt n _ w keyed
        (λ v k. close_expired-AllEvolve s.orders s.program view laws v k from_error now n u)
  execute-AllEvolve (now, marks_paid n u) w keyed =
      under_lock tt n _ w keyed
        (λ v k. mark_order_paid-AllEvolve s.orders s.program view laws v k now n u)
  execute-AllEvolve (now, calls_back n amount_cent paid_flag) w keyed =
      under_lock zero_result n _ w keyed (λ v k.
        handle_payment_callback-AllEvolve s.orders s.program view laws v k now n amount_cent
          paid_flag)
  execute-AllEvolve (now, marks_refunded n) w keyed = under_lock none n _ w keyed (λ v k.
      order_or_none_keeps v _ (mark_refunded-AllEvolve s.orders s.program view laws v k now n))

  pub evolve-IsKeyed : {a b : S} → AllEvolve view a b → IsKeyed view a → IsKeyed view b
  evolve-IsKeyed {a} {b} evolve keyed n o at = one (evolve n)
    where
      one : Evolves (view a n) (view b n) → o.order_number ≡ n
      one (stays same) = keyed n o (sym same ∙ at)
      one (steps x y before after step same) =
          let here : y ≡ o = ground (arith, before, after, at) in
          ap (λ (t : Order). t.order_number) (sym here) ∙ same.number_same ∙ keyed n x before

  one_step :
      {a b : Option Order} {o : Order}
      → Evolves a b
      → a ≡ some o
      → (o' : Order) × (b ≡ some o') × Reaches o.status o'.status × SameOrder o o'
  one_step {o} (stays same) at = (o, same ∙ at, here, ground arith)
  one_step {b} {o} (steps x y before after step same) at =
      let from : x ≡ o = ground (arith, before, at) in
      (
        y,
        after,
        subst (λ (t : Order). Reaches t.status y.status) from (next here step),
        subst (λ t. SameOrder t y) from same,
      )

  Reaches-trans : {a b c : Domain.Status} → Reaches a b → Reaches b c → Reaches a c
  Reaches-trans r here = r
  Reaches-trans r (next q step) = next (Reaches-trans r q) step

  -- Over any sequence of calls of the service, with or without a lock service, an order keeps its
  -- number, program, user, category, seats, ticket users, amount and time of creation, and its status
  -- only follows the steps of the state machine. The repository keeps its laws, and starts with each
  -- order under its own number.
  pub execute_all-Reaches :
      (cs : List (ℤ × Command)) (w : World S P L) (n : ℤ) (o : Order)
      → IsKeyed view w.orders
      → view w.orders n ≡ some o
      → (o' : Order) × (view (execute_all from_error s cs w).orders n ≡ some o')
        × Reaches o.status o'.status
        × SameOrder o o'
  unfolding execute_all
  execute_all-Reaches [] w n o keyed at = (o, at, here, ground arith)
  execute_all-Reaches (c ∷ cs) w n o keyed at =
      let evolve = execute-AllEvolve c w keyed in
      let (o1, at1, reach1, same1) = one_step (evolve n) at in
      let (o2, at2, reach2, same2) =
        execute_all-Reaches cs (execute from_error s c w) n o1 (evolve-IsKeyed evolve keyed) at1 in
      (o2, at2, Reaches-trans reach1 reach2, ground (arith, same1, same2))

  final_stays :
      {a b : Option Order} {o : Order}
      → (o.status ≡ paid) ⊎ (o.status ≡ refund)
      → Evolves a b
      → a ≡ some o
      → b ≡ some o
  final_stays final (stays same) at = same ∙ at
  final_stays final (steps x y before after (pays p q) same) at =
      absurd (ground (arith, before, at, p, final))
  final_stays final (steps x y before after (cancels p q) same) at =
      absurd (ground (arith, before, at, p, final))
  final_stays final (steps x y before after (refunds p q) same) at =
      absurd (ground (arith, before, at, p, final))

  -- A paid order, and a refunded one, is never changed again by any sequence of calls. The repository
  -- keeps its laws, and starts with each order under its own number.
  pub execute_all_final :
      (cs : List (ℤ × Command)) (w : World S P L) (n : ℤ) (o : Order)
      → IsKeyed view w.orders
      → view w.orders n ≡ some o
      → (o.status ≡ paid) ⊎ (o.status ≡ refund)
      → view (execute_all from_error s cs w).orders n ≡ some o
  unfolding execute_all
  execute_all_final [] w n o keyed at final = at
  execute_all_final (c ∷ cs) w n o keyed at final =
      let evolve = execute-AllEvolve c w keyed in
      execute_all_final cs (execute from_error s c w) n o (evolve-IsKeyed evolve keyed)
        (final_stays final (evolve n) at) final
