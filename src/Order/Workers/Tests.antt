-- ===== src/Order/Workers/Tests.antt =====
-- Runs of the workers of the order service, and the theorems on them at concrete inputs.
use ticket_hub.Common.{
  ℤ, pos, String, ◌≡◌, ◌≢◌, refl, ◌&&◌, Option, none, some, List, [], ◌∷◌, arith, if◌then◌else◌,
  ◌==◌, nat_eq, string_eq, int_eq, ◌+ℤ◌, ◌-ℤ◌, eqb_ℤ_iff,
}
use ticket_hub.Common.Dict.{lookup, insert, lookup-insert, All-lookup}
use ticket_hub.Errors.{
  Code, GoError, new_error, Result, ok, err, Status, status_error, as_app_error,
}
use ticket_hub.Errors.Grpc.{is_code}
use ticket_hub.DelayQueue.{
  MemoryQueue, memory_queue, claim_topic, new_memory_queue, with_visibility_timeout,
}
use ticket_hub.DelayQueue.Operations.{Call, claiming, run, maps_of}
use ticket_hub.DelayQueue.Invariant.{new_memory_queue-IsQueue}
use ticket_hub.Order.Domain.{Order, no_pay, cancel, mark_canceled}
use ticket_hub.Order.Memory.{
  Orders, memory_store, view, memory_store-IsOrderStore, find, save, update,
}
use ticket_hub.Order.Commands.{ProgramSeatClient, close_expired, cancel_order}
use ticket_hub.Order.Commands.Service.{OrderCommandService, call_close_expired, with_order_lock}
use ticket_hub.Order.Commands.Evolution.{IsKeyed}
use ticket_hub.Program.Creation.{CreateOrderEvent}
use ticket_hub.Order.Workers.{
  CreateOrderConsumer, ConsumerWorld, DiscardOrder, order_of, handle, poll,
}
use ticket_hub.Order.Workers.Closing.{FindsAll}
use ticket_hub.Order.Workers.Polling.{Clocked, expired_order_closer}
use ticket_hub.Order.Workers.Watching.{SavesAll, RoundTrips, handle_again}
use ticket_hub.Order.Workers.InTime.{closed_in_time}

abbrev event : CreateOrderEvent
event = record {
  order_number = pos 41;
  program_id = pos 3;
  user_id = pos 1029;
  ticket_category_id = pos 2;
  seat_ids = pos 8 ∷ [];
  ticket_user_ids = pos 5 ∷ [];
  amount_cent = pos 9900;
  identifier_id = pos 7;
  order_version = "v1";
  created_at = pos 100;
}

-- A json that knows one event and one order.
abbrev decode_event : String → Result CreateOrderEvent
decode_event text = ok event

abbrev encode : Order → Result String
encode o =
    if o.order_number == pos 41 && o.user_id == pos 1029
    then ok "order 41"
    else err (new_error Code.internal "json")

abbrev decode : String → Result (ℤ × ℤ)
decode text = ok (pos 41, pos 1029)

encode-RoundTrips : RoundTrips encode decode
encode-RoundTrips o payload written =
    ground (arith, written, eqb_ℤ_iff o.order_number (pos 41), eqb_ℤ_iff o.user_id (pos 1029))

abbrev no_status : GoError → Option Status
no_status (status_error s) = some s
no_status e = none

memory-FindsAll : FindsAll no_status memory_store view
unfolding find
memory-FindsAll n u s e o failed absent here user =
    ground (arith, failed, here, eqb_ℤ_iff o.user_id u)

memory-SavesAll : SavesAll memory_store view
unfolding save
memory-SavesAll o s saved = ground (
  arith,
  lookup-insert o.order_number o.order_number o s,
  eqb_ℤ_iff o.order_number o.order_number,
)

abbrev seats : ProgramSeatClient (List ℤ)
seats = record {
  confirm_seats_sold = λ r told. (ok tt, told);
  release_seats = λ r count told. (ok tt, r.order_number ∷ told);
}

abbrev service : OrderCommandService Orders (List ℤ) (Unit {0})
service = record { orders = memory_store; program = seats; locker = none; lock_ttl = pos 5 }

abbrev consumer : CreateOrderConsumer Orders MemoryQueue (Unit {0}) (List DiscardOrder)
consumer = record {
  orders = memory_store;
  discards = λ d ds. (ok tt, d ∷ ds);
  max_delay = pos 60;
  cancel_queue = some memory_queue;
  cancel_in = pos 900;
  inventory = none;
}

abbrev start : ConsumerWorld Orders MemoryQueue (Unit {0}) (List DiscardOrder)
start = record {
  orders = [];
  queue = with_visibility_timeout (pos 120) new_memory_queue;
  program = tt;
  discards = [];
}

abbrev consumed : ConsumerWorld Orders MemoryQueue (Unit {0}) (List DiscardOrder)
consumed = (handle encode consumer decode_event no_status (pos 101) (pos 102) "event" start).1

abbrev the_order : Order
the_order = order_of (pos 102) event

abbrev clocked : Clocked Orders (List ℤ) (Unit {0})
clocked = (λ i. pos 1010, record { orders = consumed.orders; program = []; locks = tt })

abbrev before_due : List Call
before_due = claiming "ticket_hub.cancel_order" (pos 500) (pos 10) ∷ []

abbrev polled : Result (Unit {0}) × (MemoryQueue × Clocked Orders (List ℤ) (Unit {0}))
polled =
    poll decode memory_queue (expired_order_closer no_status service) (pos 1002) (pos 10)
      (run before_due consumed.queue, clocked)

handle_again_example :
    ((handle encode consumer decode_event no_status (pos 300) (pos 300) "event" consumed).1.orders
      ≡ consumed.orders)
    × ((handle encode consumer decode_event no_status
          (pos 300)
          (pos 300)
          "event"
          consumed).1.program
        ≡ consumed.program)
    × ((handle encode consumer decode_event no_status
          (pos 300)
          (pos 300)
          "event"
          consumed).1.discards
        ≡ consumed.discards)
unfolding find lookup handle is_code as_app_error ◌-ℤ◌ save insert
handle_again_example =
    handle_again view encode decode consumer no_status decode_event (pos 300) (pos 300) "event"
      event the_order consumed refl refl

abbrev closed_order : Order
closed_order = record the_order { status = cancel; canceled_at = some (pos 1010) }

consumed-IsKeyed : IsKeyed view consumed.orders
unfolding find lookup handle is_code as_app_error ◌-ℤ◌ save insert
consumed-IsKeyed n o at = All-lookup (λ e. e.1.order_number ≡ e.0) n consumed.orders (refl, tt) at

-- What the poll gives: nothing stays in the queue, and the order is canceled.
polled_runs : view polled.1.1.1.orders (pos 41) ≡ some (closed_order)
unfolding find lookup handle is_code as_app_error ◌-ℤ◌ save insert run poll claim_topic
    with_visibility_timeout new_memory_queue ◌+ℤ◌ call_close_expired with_order_lock close_expired
    cancel_order mark_canceled update maps_of
polled_runs = refl

closed_in_time_example : closed_order.status ≢ no_pay
unfolding find lookup handle is_code as_app_error ◌-ℤ◌ save insert run poll claim_topic
    with_visibility_timeout new_memory_queue ◌+ℤ◌ call_close_expired with_order_lock close_expired
    cancel_order mark_canceled update maps_of
closed_in_time_example =
    closed_in_time no_status service view memory_store-IsOrderStore memory-FindsAll decode encode
      consumer refl refl (ground arith) encode-RoundTrips memory-SavesAll decode_event (pos 101)
      (pos 102) "event" event start consumed (λ n o at. absurd (ground (arith, at)))
      (new_memory_queue-IsQueue (pos 120)) refl refl refl the_order refl refl before_due (pos 1002)
      (pos 10) clocked polled.1.1 polled.1.0 (λ same. omega arith, tt) (omega arith) (omega arith)
      (omega arith) consumed-IsKeyed refl (closed_order) refl refl
