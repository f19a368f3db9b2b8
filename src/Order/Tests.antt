-- ===== src/Order/Tests.antt =====
-- Runs of the order commands on the memory repository, and the theorems on them at concrete inputs.
use ticket_hub.Common.{
  ℕ, suc, ℤ, pos, ◌≡◌, refl, inl, true, false, Option, none, some, List, [], ◌∷◌, int_eq,
}
use ticket_hub.Common.Dict.{lookup, insert, All-lookup}
use ticket_hub.Errors.{GoError, Status, ok, status_error}
use ticket_hub.Lock.{Locker}
use ticket_hub.Order.Domain
use ticket_hub.Order.Domain.{Order, no_pay, paid, cancel, refund, Step, SameOrder}
use ticket_hub.Order.Store.{system_lookup}
use ticket_hub.Order.Memory
use ticket_hub.Order.Memory.{Orders, memory_store, view, memory_store-IsOrderStore}
use ticket_hub.Order.Commands.{
  World, ProgramSeatClient, SeatRequest, request_of, result_of, no_system_lookup,
  handle_payment_callback,
}
use ticket_hub.Order.Commands
use ticket_hub.Order.Commands.Service
use ticket_hub.Common.Fmt.{show_ℤ}
use ticket_hub.Order.Commands.Service.{
  OrderCommandService, Command, cancels_order, closes_expired, marks_paid, calls_back,
  marks_refunded, execute_all,
}
use ticket_hub.Order.Commands.Evolution.{IsKeyed}
use ticket_hub.Order.Commands.History.{Reaches, execute_all-Reaches, execute_all_final}
use ticket_hub.Order.Commands.Payment.{
  refund_required_only_canceled, payment_confirms_seats, Settled,
}

-- A program service that writes down what it is told: the order, and the number of tickets to give
-- back, which is 0 for a confirmation.
abbrev noting : ProgramSeatClient (List (ℤ × ℤ))
noting = record {
  confirm_seats_sold = λ r told. (ok tt, (r.order_number, pos 0) ∷ told);
  release_seats = λ r count told. (ok tt, (r.order_number, count) ∷ told);
}

-- A lock service that lets everybody in, and counts.
abbrev counting : Locker ℕ
counting = record { acquire = λ key ttl n. (ok "token", suc n); release = λ key token n. n }

abbrev open_order : Order
open_order = record {
  order_number = pos 41;
  program_id = pos 3;
  user_id = pos 1029;
  ticket_category_id = pos 2;
  seat_ids = pos 8 ∷ pos 9 ∷ [];
  ticket_user_ids = pos 5 ∷ pos 6 ∷ [];
  amount_cent = pos 9900;
  status = no_pay;
  created_at = pos 1;
  paid_at = none;
  canceled_at = none;
  refunded_at = none;
}

abbrev canceled_order : Order
canceled_order = record open_order {
  order_number = pos 42;
  status = cancel;
  canceled_at = some (pos 5);
}

abbrev world : World Orders (List (ℤ × ℤ)) ℕ
world = record {
  orders = (pos 41, open_order) ∷ (pos 42, canceled_order) ∷ [];
  program = [];
  locks = 0;
}

abbrev service : OrderCommandService Orders (List (ℤ × ℤ)) ℕ
service = record {
  orders = memory_store;
  program = noting;
  locker = some counting;
  lock_ttl = pos 5;
}

abbrev no_status : GoError → Option Status
no_status (status_error s) = some s
no_status e = none

world-IsKeyed : IsKeyed view world.orders
world-IsKeyed n o at = All-lookup (λ e. e.1.order_number ≡ e.0) n world.orders (refl, (refl, tt)) at

-- A payment, a cancellation that comes too late, a callback for the canceled order, and its refund.
abbrev history : List (ℤ × Command)
history =
    (pos 6, marks_paid (pos 41) (pos 1029))
    ∷ (pos 7, cancels_order (pos 41) (pos 1029))
    ∷ (pos 8, calls_back (pos 42) (pos 9900) true)
    ∷ (pos 9, marks_refunded (pos 42))
    ∷ (pos 10, closes_expired (pos 42) (pos 1029))
    ∷ []

abbrev paid_order : Order
paid_order = record open_order { status = paid; paid_at = some (pos 6) }

abbrev refunded_order : Order
refunded_order = record canceled_order { status = refund; refunded_at = some (pos 9) }

history_runs :
    (execute_all no_status service history world).orders
    ≡ (pos 41, paid_order) ∷ (pos 42, refunded_order) ∷ []
unfolding execute_all Service.execute Service.call_close_expired Service.with_order_lock
    Commands.close_expired Memory.find lookup Service.call_mark_refunded Commands.mark_refunded
    Memory.find_system Service.call_payment_callback handle_payment_callback Service.call_cancel
    Commands.cancel_order Service.call_mark_paid Commands.mark_order_paid show_ℤ Service.run_locked
    Commands.accept_payment Commands.persist_paid Commands.settle_payment Domain.mark_canceled
    Domain.mark_paid Domain.mark_refund Domain.ticket_count Memory.update insert
history_runs = refl

execute_all-Reaches_example :
    (o' : Order) × (view (execute_all no_status service history world).orders (pos 42) ≡ some o')
    × Reaches canceled_order.status o'.status
    × SameOrder canceled_order o'
unfolding lookup
execute_all-Reaches_example =
    execute_all-Reaches no_status service view memory_store-IsOrderStore history world (pos 42)
      canceled_order world-IsKeyed refl

execute_all_final_example :
    view
      (execute_all no_status service history
        (record world { orders = (pos 41, paid_order) ∷ [] })).orders
      (pos 41)
    ≡ some paid_order
unfolding lookup
execute_all_final_example =
    execute_all_final no_status service view memory_store-IsOrderStore history
      (record world { orders = (pos 41, paid_order) ∷ [] }) (pos 41) paid_order
      (λ n o at.
        All-lookup (λ e. e.1.order_number ≡ e.0) n ((pos 41, paid_order) ∷ []) (refl, tt) at)
      refl (inl refl)

refund_required_runs :
    (handle_payment_callback memory_store noting
      (pos 8)
      (pos 42)
      (pos 9900)
      true
      world).0.refund_required
    ≡ true
unfolding handle_payment_callback Memory.find_system lookup Commands.accept_payment
refund_required_runs = refl

refund_required_only_canceled_example :
    (current : Order) × (system_lookup memory_store no_system_lookup (pos 42) world.orders
      ≡ ok current)
    × (current.status ≡ cancel)
    × (true ≡ true)
    × (pos 9900 ≡ current.amount_cent)
    × (handle_payment_callback memory_store noting (pos 8) (pos 42) (pos 9900) true world ≡ (
      record { status = cancel; refund_required = true; amount_cent = current.amount_cent },
      ok tt,
      world,
    ))
refund_required_only_canceled_example =
    refund_required_only_canceled memory_store noting (pos 8) (pos 42) (pos 9900) true world
      refund_required_runs

payment_runs :
    (handle_payment_callback memory_store noting (pos 8) (pos 41) (pos 9900) true world).1 ≡ ok tt
unfolding handle_payment_callback Memory.find_system lookup Commands.accept_payment
    Commands.settle_payment Commands.persist_paid Domain.mark_paid Memory.update
payment_runs = refl

payment_confirms_seats_example :
    let (result, r, w') =
      handle_payment_callback memory_store noting (pos 8) (pos 41) (pos 9900) true world in
    (marked : Order) × (marked.status ≡ paid)
    × Settled memory_store noting view memory_store-IsOrderStore
        (pos 41)
        world
        marked
        (noting.confirm_seats_sold (request_of marked))
        w'
    × (result ≡ record { status = paid; refund_required = false; amount_cent = pos 9900 })
unfolding lookup Memory.find_system
payment_confirms_seats_example =
    payment_confirms_seats memory_store noting view memory_store-IsOrderStore (pos 8) (pos 41)
      open_order world refl refl (inl refl) payment_runs
