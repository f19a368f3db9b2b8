-- ===== src/Order/Commands/Service.antt =====
-- app/order-service/internal/application/order_command.go: the methods of `OrderCommandService`,
-- each under the lock of its order.
use ticket_hub.Common.{
  String, ℤ, Bool, Option, none, some, List, [], ◌∷◌, nat_eq, string_eq, int_eq,
}
use ticket_hub.Common.Fmt.{◌<>◌, show_ℤ}
use ticket_hub.Errors.{GoError, Result, ok, err, Status}
use ticket_hub.Lock.{Locker}
use ticket_hub.Order.Domain.{Order}
use ticket_hub.Order.Store.{OrderStore}
use ticket_hub.Order.Commands.{
  World, ProgramSeatClient, PaymentCallbackResult, cancel_order, mark_order_paid, close_expired,
  handle_payment_callback, mark_refunded, zero_result,
}

-- The rest of `withOrderLock` once the lock service has answered: the body runs under the lock, which
-- is released after it whatever it returned.
unfoldable pub run_locked :
    {S P L R : Type 0}
    → Locker L
    → String
    → R
    → (World S P L → R × Result (Unit {0}) × World S P L)
    → World S P L
    → Result String × L
    → R × Result (Unit {0}) × World S P L
run_locked service key initial body w (err e, held) = (initial, err e, record w { locks = held })
run_locked service key initial body w (ok token, held) =
    let (result, r, w') = body (record w { locks = held }) in
    (result, r, record w' { locks = service.release key token w'.locks })

-- `withOrderLock` around a body with a result of the type `R`, which is `initial` if the lock is not
-- to be had.
unfoldable pub with_order_lock :
    {S P L R : Type 0}
    → Option (Locker L)
    → ℤ
    → ℤ
    → R
    → (World S P L → R × Result (Unit {0}) × World S P L)
    → World S P L
    → R × Result (Unit {0}) × World S P L
unfolding run_locked
with_order_lock none ttl n initial body w = body w
with_order_lock (some service) ttl n initial body w =
    let key = "tickethub:order-lock:" <> show_ℤ n in
    run_locked service key initial body w (service.acquire key ttl w.locks)

-- `OrderCommandService`
pub record OrderCommandService (S P L : Type 0) : Type 0 where
  pub orders : OrderStore S
  pub program : ProgramSeatClient P
  pub locker : Option (Locker L)
  pub lock_ttl : ℤ

abbrev pub nothing : {W : Type 0} → Result (Unit {0}) × W → Unit {0} × Result (Unit {0}) × W
nothing (r, w) = (tt, r, w)

-- The order of a call that failed is not read.
abbrev pub order_or_none : {W : Type 0} → Result Order × W → Option Order × Result (Unit {0}) × W
order_or_none (ok o, w) = (some o, ok tt, w)
order_or_none (err e, w) = (none, err e, w)

-- The calls that a client makes.
pub data Command : Type 0 where
  cancels_order closes_expired marks_paid : ℤ → ℤ → Command
  calls_back : ℤ → ℤ → Bool → Command
  marks_refunded : ℤ → Command

module _ {S P L : Type 0} (from_error : GoError → Option Status)
    (s : OrderCommandService S P L) where
  -- `Cancel`
  unfoldable pub call_cancel : ℤ → ℤ → ℤ → World S P L → Unit {0} × Result (Unit {0}) × World S P L
  call_cancel now n u =
      with_order_lock s.locker s.lock_ttl n tt
        (λ w. nothing (cancel_order s.orders s.program now n u w))

  -- `CloseExpired`
  unfoldable pub call_close_expired :
      ℤ → ℤ → ℤ → World S P L → Unit {0} × Result (Unit {0}) × World S P L
  call_close_expired now n u =
      with_order_lock s.locker s.lock_ttl n tt
        (λ w. nothing (close_expired s.orders s.program from_error now n u w))

  -- `MarkPaid`
  unfoldable pub call_mark_paid :
      ℤ → ℤ → ℤ → World S P L → Unit {0} × Result (Unit {0}) × World S P L
  call_mark_paid now n u =
      with_order_lock s.locker s.lock_ttl n tt
        (λ w. nothing (mark_order_paid s.orders s.program now n u w))

  -- `HandlePaymentCallback`
  unfoldable pub call_payment_callback :
      ℤ → ℤ → ℤ → Bool → World S P L → PaymentCallbackResult × Result (Unit {0}) × World S P L
  call_payment_callback now n amount_cent paid_flag =
      with_order_lock s.locker s.lock_ttl n zero_result
        (handle_payment_callback s.orders s.program now n amount_cent paid_flag)

  -- `MarkRefunded`
  unfoldable pub call_mark_refunded :
      ℤ → ℤ → World S P L → Option Order × Result (Unit {0}) × World S P L
  call_mark_refunded now n =
      with_order_lock s.locker s.lock_ttl n none
        (λ w. order_or_none (mark_refunded s.orders s.program now n w))

  -- The world after a call at the time `now`, whatever it returned.
  unfoldable pub execute : ℤ × Command → World S P L → World S P L
  execute (now, cancels_order n u) w = (call_cancel now n u w).2
  execute (now, closes_expired n u) w = (call_close_expired now n u w).2
  execute (now, marks_paid n u) w = (call_mark_paid now n u w).2
  execute (now, calls_back n amount_cent paid_flag) w =
      (call_payment_callback now n amount_cent paid_flag w).2
  execute (now, marks_refunded n) w = (call_mark_refunded now n w).2

  unfoldable pub execute_all : List (ℤ × Command) → World S P L → World S P L
  execute_all [] w = w
  execute_all (c ∷ cs) w = execute_all cs (execute c w)
