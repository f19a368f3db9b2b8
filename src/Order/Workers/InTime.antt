-- ===== src/Order/Workers/InTime.antt =====
-- app/order-service/internal/application: from the event of an order (create_order_consumer.go) over
-- the delay queue in memory to the end of its time for payment (cancel_order_worker.go).
use ticket_hub.Common.{
  ◌+◌, ℤ, pos, String, ◌≡◌, ◌≢◌, sym, ap, subst, ◌∙◌, false, ◌&&◌, Option, some, List, arith,
  nat_eq, string_eq, int_eq, length, All, All-Mem, ◌+ℤ◌, ◌≤ℤ◌, ◌<ℤ◌, ltb_ℤ,
}
use ticket_hub.Common.Fmt.{show_ℤ}
use ticket_hub.Errors.{GoError, Result, ok, Status}
use ticket_hub.DelayQueue.{Message}
use ticket_hub.Order.Domain.{Order, no_pay}
use ticket_hub.Order.Store.{OrderStore, IsOrderStore}
use ticket_hub.Order.Commands.Evolution.{IsKeyed}
use ticket_hub.Order.Commands.Service.{OrderCommandService}
use ticket_hub.Order.Workers.{poll, cancel_order_delay_topic}
use ticket_hub.Program.Creation.{CreateOrderEvent}
use ticket_hub.DelayQueue.{MemoryQueue, memory_queue, attempted}
use ticket_hub.DelayQueue.Operations.{Call, run, maps_of}
use ticket_hub.DelayQueue.Invariant.{IsQueue, run-IsQueue}
use ticket_hub.DelayQueue.Waiting.{IsWaiting, IsAside, run-IsWaiting, waiting_is_given}
use ticket_hub.Order.Workers.{CreateOrderConsumer, ConsumerWorld, handle, consume_delay}
use ticket_hub.Order.Workers.Closing.{IsClosed, FindsAll}
use ticket_hub.Order.Workers.Polling.{Clocked, expired_order_closer, IsSettled, poll-IsSettled}
use ticket_hub.Order.Workers.Watching.{SavesAll, RoundTrips, IsWatched, handle-IsWatched}
use ticket_hub.DelayQueue.Delivery.{claimed, claim_due-claimed}

module _ {S P L : Type 0} (from_error : GoError → Option Status) (s : OrderCommandService S P L)
    (view : S → ℤ → Option Order) (laws : IsOrderStore s.orders view)
    (finds : FindsAll from_error s.orders view) (decode : String → Result (ℤ × ℤ)) where
  -- Polled in time: the room, the time, and a poll that succeeds.
  waiting-IsClosed :
      (n u : ℤ) (key : String) (msg : Message) (now limit : ℤ) (q : MemoryQueue) (c : Clocked S P L)
      → IsKeyed view c.1.orders
      → IsQueue q
      → pos 0 <ℤ limit
      → pos (
          length (maps_of cancel_order_delay_topic q).0
          + length (maps_of cancel_order_delay_topic q).1)
        ≤ℤ limit
      → IsWaiting key msg (maps_of cancel_order_delay_topic q)
      → msg.available_at ≤ℤ now
      → decode msg.payload ≡ ok (n, u)
      → (poll decode memory_queue (expired_order_closer from_error s) now limit (q, c)).0 ≡ ok tt
      → IsClosed view n u
          (poll decode memory_queue
            (expired_order_closer from_error s)
            now
            limit
            (q, c)).1.1.1.orders
  waiting-IsClosed n u key msg now limit q c keyed well some_limit room waits due names done =
      let ms = claimed cancel_order_delay_topic now limit q in
      let orders =
        (poll decode memory_queue (expired_order_closer from_error s) now limit
          (q, c)).1.1.1.orders in
      All-Mem (IsSettled from_error s view laws finds decode memory_queue orders) (attempted msg) ms
        (poll-IsSettled from_error s view laws finds decode memory_queue now limit q c ms keyed
          (claim_due-claimed cancel_order_delay_topic now limit q) done)
        (waiting_is_given cancel_order_delay_topic key msg now limit q well some_limit room waits
          due)
        n u names

  -- An order whose event was handled without an error, and not late, and that was unpaid then, is
  -- not unpaid any more after a poll that is made `cancel_in` after its creation or later, over the
  -- queue as the consumer left it and further calls changed it, if the poll succeeds and its limit
  -- is not below the number of messages of the topic, waiting and claimed, and the calls before it
  -- left the order's message alone and claimed before it was due only. The consumer and the worker share a repository that keeps its laws and each
  -- order under its number, and a well-formed queue in memory; `cancel_in` is positive, and json
  -- reads back what it wrote.
  pub closed_in_time :
      {P' D : Type 0} (encode : Order → Result String) (k : CreateOrderConsumer S MemoryQueue P' D)
      → k.orders ≡ s.orders
      → k.cancel_queue ≡ some memory_queue
      → pos 0 <ℤ k.cancel_in
      → RoundTrips encode decode
      → SavesAll s.orders view
      → (decode_event : String → Result CreateOrderEvent) (first second : ℤ) (event : String)
        (e : CreateOrderEvent) (w w' : ConsumerWorld S MemoryQueue P' D)
      → IsKeyed view w.orders
      → IsQueue w.queue
      → decode_event event ≡ ok e
      → (ltb_ℤ (pos 0) k.max_delay && ltb_ℤ k.max_delay (consume_delay first e.created_at)) ≡ false
      → handle encode k decode_event from_error first second event w ≡ (ok tt, w')
      → (o : Order) → view w'.orders e.order_number ≡ some o
      → o.status ≡ no_pay
      → (cs : List Call) (now limit : ℤ) (c c' : Clocked S P L) (q : MemoryQueue)
      → All
          (IsAside cancel_order_delay_topic (show_ℤ e.order_number) (o.created_at +ℤ k.cancel_in))
          cs
      → pos 0 <ℤ limit
      → pos (
          length (maps_of cancel_order_delay_topic (run cs w'.queue)).0
          + length (maps_of cancel_order_delay_topic (run cs w'.queue)).1)
        ≤ℤ limit
      → o.created_at +ℤ k.cancel_in ≤ℤ now
      → IsKeyed view c.1.orders
      → poll decode memory_queue (expired_order_closer from_error s) now limit (run cs w'.queue, c)
        ≡ (ok tt, (q, c'))
      → (o' : Order) → view c'.1.orders e.order_number ≡ some o'
      → o'.user_id ≡ e.user_id
      → o'.status ≢ no_pay
  closed_in_time {P'} {D} encode k shared set delayed trips saves decode_event first second event e
        w w' keyed well read early handled o here unpaid cs now limit c c' q aside some_limit room
        past keyed' polled =
      let watched =
        handle-IsWatched view encode decode k set delayed trips from_error decode_event
          (subst (λ (t : OrderStore S). IsOrderStore t view) (sym shared) laws)
          (subst (λ (t : OrderStore S). SavesAll t view) (sym shared) saves) first second event e w
          keyed well read early (ap (λ r. r.0) handled) in
      let (well', o', here', user, watch) =
        subst
          (λ (r : Result (Unit {0}) × ConsumerWorld S MemoryQueue P' D).
            IsWatched view encode decode k e.order_number e.user_id r.1)
          handled watched in
      let one : o' ≡ o = ground (arith, here, here') in
      let (msg, waits, names, at) = watch (ap (λ (t : Order). t.status) one ∙ unpaid) in
      let due : msg.available_at ≡ o.created_at +ℤ k.cancel_in =
        at ∙ ap (λ (t : Order). t.created_at +ℤ k.cancel_in) one in
      let closed =
        waiting-IsClosed e.order_number e.user_id (show_ℤ e.order_number) msg now limit
          (run cs w'.queue) c keyed' (run-IsQueue cs w'.queue well') some_limit room
          (run-IsWaiting cancel_order_delay_topic (show_ℤ e.order_number) msg cs w'.queue well'
            (subst (λ (t : ℤ). All (IsAside cancel_order_delay_topic (show_ℤ e.order_number) t) cs)
              (sym due) aside)
            waits)
          (subst (λ (t : ℤ). t ≤ℤ now) (sym due) past) names (ap (λ r. r.0) polled) in
      subst
        (λ (r : Result (Unit {0}) × (MemoryQueue × Clocked S P L)).
          IsClosed view e.order_number e.user_id r.1.1.1.orders)
        polled closed
