-- ===== src/Order/Workers.antt =====
-- app/order-service/internal/application: the consumer of the order events
-- (create_order_consumer.go) and the worker that closes orders in time (cancel_order_worker.go). What
-- json makes of a payload, and of an order, are parameters; the counters of the observability
-- package are left out.
pub mod Closing
pub mod Polling
pub mod Watching
pub mod InTime
mod Tests
use ticket_hub.Common.{
  ℕ, zero, suc, ◌+◌, ◌-◌, ◌*◌, ◌/◌, ◌%◌, ◌^◌, ◌≤◌, ◌<◌, ℤ, pos, negsuc, String, ◌≡◌, ◌≢◌, refl, sym,
  ap, subst, ◌∙◌, ◌↔◌, ◌⊎◌, inl, inr, Bool, true, false, not, ◌&&◌, ◌||◌, Option, none, some, List,
  [], ◌∷◌, ◌++◌, map, arith, ltb, leb, nat_eqb, if◌then◌else◌, Bool-cases, Option-cases, Eq, ◌==◌,
  nat_eq, string_eq, int_eq, ==_refl, ==_ne, length, get_elem?, take, length-append, length-take,
  All, Mem, All-imp, All-append, All-map, All-Mem, map-Mem, pos_part, neg_part, sub_ℕ, ◌+ℤ◌, ◌-ℤ◌,
  ◌*ℤ◌, ◌≤ℤ◌, ◌<ℤ◌, ltb_ℤ, leb_ℤ, eqb_ℤ, eq_of_parts, eqb_ℤ_iff, +ℤ_parts, -ℤ_parts, int_laws,
  IsInt64, wrap64, wrap64_id, wrap64-IsInt64, add64, sub64, mul64, quotient, remainder,
  quotient_nonneg, remainder_nonneg, bits64, neg_part-zero, pos_of, add64-pos, mul64-pos,
}
use ticket_hub.Common.Fmt.{show_ℤ}
use ticket_hub.Errors.{Code, GoError, Result, ok, err, Status}
use ticket_hub.Errors.Grpc.{is_code}
use ticket_hub.Action.{Action}
use ticket_hub.DelayQueue.{Message, Queue}
use ticket_hub.Order.Domain.{Order, no_pay, paid, cancel, refund, other_status, new_order}
use ticket_hub.Order.Domain
use ticket_hub.Order.Store.{OrderStore}
use ticket_hub.Program.Creation.{CreateOrderEvent}

-- `DiscardOrder`; its status and its times are left to the repository.
pub record DiscardOrder : Type 0 where
  pub id : ℤ
  pub order_number : ℤ
  pub program_id : ℤ
  pub user_id : ℤ
  pub ticket_category_id : ℤ
  pub seat_ids : List ℤ
  pub ticket_user_ids : List ℤ
  pub amount_cent : ℤ
  pub reason : String
  pub detail : String

-- The arguments of `RollbackCreateOrder`.
pub record Rollback : Type 0 where
  pub order_number : ℤ
  pub program_id : ℤ
  pub ticket_category_id : ℤ
  pub seat_ids : List ℤ
  pub ticket_user_ids : List ℤ
  pub count : ℤ

abbrev pub cancel_order_delay_topic : String
cancel_order_delay_topic = "ticket_hub.cancel_order"

-- `CreateOrderConsumer`; an interface that is not set is `none`.
pub record CreateOrderConsumer (S Q P D : Type 0) : Type 0 where
  pub orders : OrderStore S
  pub discards : DiscardOrder → Action D (Unit {0})
  pub max_delay : ℤ
  pub cancel_queue : Option (Queue Q)
  pub cancel_in : ℤ
  pub inventory : Option (Rollback → Action P (Unit {0}))

pub record ConsumerWorld (S Q P D : Type 0) : Type 0 where
  pub orders : S
  pub queue : Q
  pub program : P
  pub discards : D

-- `Time.Sub`, which stops at the bounds of its 64 bits.
abbrev pub largest_duration : ℤ
largest_duration = pos 9_223_372_036_854_775_807

unfoldable pub time_sub : ℤ → ℤ → ℤ
time_sub a b =
    if ltb_ℤ largest_duration (a -ℤ b)
    then largest_duration
    else if ltb_ℤ (a -ℤ b) (negsuc 9_223_372_036_854_775_807)
    then negsuc 9_223_372_036_854_775_807
    else a -ℤ b

-- The delay of an event.
unfoldable pub consume_delay : ℤ → ℤ → ℤ
unfolding time_sub
consume_delay now created_at =
    let delay = time_sub now created_at in if ltb_ℤ delay (pos 0) then pos 0 else delay

unfoldable pub rollback_of : CreateOrderEvent → Rollback
rollback_of e = record {
  order_number = e.order_number;
  program_id = e.program_id;
  ticket_category_id = e.ticket_category_id;
  seat_ids = e.seat_ids;
  ticket_user_ids = e.ticket_user_ids;
  count =
      if ltb 0 (length e.seat_ids) then pos (length e.seat_ids) else pos (length e.ticket_user_ids);
}

unfoldable pub discard_of : CreateOrderEvent → DiscardOrder
discard_of e = record {
  id = pos 0;
  order_number = e.order_number;
  program_id = e.program_id;
  user_id = e.user_id;
  ticket_category_id = e.ticket_category_id;
  seat_ids = e.seat_ids;
  ticket_user_ids = e.ticket_user_ids;
  amount_cent = e.amount_cent;
  reason = "CONSUMER_DELAY";
  detail = "create order event exceeded business delay threshold";
}

unfoldable pub order_of : ℤ → CreateOrderEvent → Order
unfolding new_order
order_of now e = record (new_order e.order_number e.program_id e.user_id e.amount_cent now) {
  ticket_category_id = e.ticket_category_id;
  seat_ids = e.seat_ids;
  ticket_user_ids = e.ticket_user_ids;
}

abbrev pub is_no_pay : Domain.Status → Bool
is_no_pay no_pay = true
is_no_pay s = false

-- The rollback of a discarded event, where there is an inventory to tell.
unfoldable pub roll_back :
    {P : Type 0} → Option (Rollback → Action P (Unit {0})) → Rollback → Action P (Unit {0})
roll_back none r p = (ok tt, p)
roll_back (some inventory) r p = inventory r p

module _ {S Q P D : Type 0} (encode : Order → Result String) (c : CreateOrderConsumer S Q P D) where
  -- `enqueueCancelCheck`: the message of an order, and the call of the queue.
  unfoldable pub cancel_check : Order → String → Message
  cancel_check o payload = record {
    id = show_ℤ o.order_number;
    topic = cancel_order_delay_topic;
    payload = payload;
    available_at = o.created_at +ℤ c.cancel_in;
    attempts = pos 0;
  }

  unfoldable pub enqueue_cancel_check : Order → Action (ConsumerWorld S Q P D) (Unit {0})
  unfolding cancel_check
  enqueue_cancel_check o w = elim c.cancel_queue [
    | none ↦ (ok tt, w)
    | some queue ↦ if leb_ℤ c.cancel_in (pos 0) then (ok tt, w) else elim (encode o) [
      | err e ↦ (err e, w)
      | ok payload ↦
          let (r, q) = queue.enqueue (cancel_check o payload) w.queue in (r, record w { queue = q })
    ]
  ]

  -- The branch of `Handle` for an event that comes too late.
  unfoldable pub discard : CreateOrderEvent → Action (ConsumerWorld S Q P D) (Unit {0})
  unfolding rollback_of discard_of roll_back
  discard e w =
      let (r, p) = roll_back c.inventory (rollback_of e) w.program in
      elim r [
        | err x ↦ (err x, record w { program = p })
        | ok u ↦
            let (r', d) = c.discards (discard_of e) w.discards in
            (r', record w { program = p; discards = d })
      ]

  -- The branch that creates the order.
  unfoldable pub create : ℤ → CreateOrderEvent → Action (ConsumerWorld S Q P D) (Unit {0})
  unfolding order_of enqueue_cancel_check
  create now e w =
      let created = order_of now e in
      let (r, s) = c.orders.save created w.orders in
      elim r [
        | err x ↦ (err x, record w { orders = s })
        | ok u ↦ enqueue_cancel_check created (record w { orders = s })
      ]

  -- `Handle` on the payload of an event. The clock is read twice: for the delay, and for a new order.
  unfoldable pub handle :
      (String → Result CreateOrderEvent)
      → (GoError → Option Status)
      → ℤ
      → ℤ
      → String
      → Action (ConsumerWorld S Q P D) (Unit {0})
  unfolding enqueue_cancel_check discard create consume_delay
  handle decode from_error now now' event w = elim (decode event) [
    | err x ↦ (err x, w)
    | ok e ↦ elim (c.orders.find e.order_number e.user_id w.orders) [
      | ok existing ↦
          if is_no_pay existing.status then enqueue_cancel_check existing w else (ok tt, w)
      | err x ↦
          if not (is_code from_error x Code.not_found)
          then (err x, w)
          else if ltb_ℤ (pos 0) c.max_delay && ltb_ℤ c.max_delay (consume_delay now e.created_at)
          then discard e w
          else create now' e w
    ]
  ]

-- `ExpiredOrderCloser`, over the state `W` of the service.
pub record ExpiredOrderCloser (W : Type 0) : Type 0 where
  pub close_expired : ℤ → ℤ → Action W (Unit {0})

module _ {Q W : Type 0} (decode : String → Result (ℤ × ℤ)) (queue : Queue Q)
    (orders : ExpiredOrderCloser W) where
  -- `handleMessage`: the number and the user of the payload's order are closed.
  unfoldable pub handle_message : Message → Action W (Unit {0})
  handle_message m w = elim (decode m.payload) [
    | err e ↦ (err e, w)
    | ok (n, u) ↦ orders.close_expired n u w
  ]

  -- One message of the loop of `Poll`.
  unfoldable pub settle_message : Message → Action (Q × W) (Unit {0})
  unfolding handle_message
  settle_message m (q, w) =
      let (r, w') = handle_message m w in
      elim r [
        | err e ↦ (err e, (q, w'))
        | ok u ↦ let (r', q') = queue.ack m.topic m.id q in (r', (q', w'))
      ]

  unfoldable pub settle_messages : List Message → Action (Q × W) (Unit {0})
  unfolding settle_message
  settle_messages [] s = (ok tt, s)
  settle_messages (m ∷ ms) s =
      let (r, s') = settle_message m s in
      elim r [ err e ↦ (err e, s') | ok u ↦ settle_messages ms s' ]

  -- `Poll` at the time `now`.
  unfoldable pub poll : ℤ → ℤ → Action (Q × W) (Unit {0})
  unfolding settle_messages
  poll now limit (q, w) =
      let (r, q') = queue.claim_due cancel_order_delay_topic now limit q in
      elim r [ err e ↦ (err e, (q', w)) | ok ms ↦ settle_messages ms (q', w) ]
