-- ===== src/Order/Compensation.antt =====
-- app/order-service/internal/application/compensation.go: discarded orders are tried again. The
-- JSON of an event is a parameter, and the result of a retry that fails is left out: its callers
-- drop it.
pub mod Retries
pub mod Ends
pub mod Loop
mod Tests
use ticket_hub.Common.{
  ℕ, zero, suc, ◌+◌, ◌-◌, ◌*◌, ◌/◌, ◌%◌, ◌^◌, ◌≤◌, ◌<◌, ℤ, pos, negsuc, String, ◌≡◌, ◌≢◌, refl, sym,
  ap, subst, ◌∙◌, ◌↔◌, ◌⊎◌, inl, inr, Bool, true, false, not, ◌&&◌, ◌||◌, Option, none, some, List,
  [], ◌∷◌, ◌++◌, map, arith, ltb, leb, nat_eqb, if◌then◌else◌, Bool-cases, Option-cases, Eq, ◌==◌,
  nat_eq, string_eq, int_eq, ==_refl, ==_ne, length, get_elem?, take, length-append, length-take,
  All, Mem, All-imp, All-append, All-map, All-Mem, map-Mem, pos_part, neg_part, sub_ℕ, ◌+ℤ◌, ◌-ℤ◌,
  ◌*ℤ◌, ◌≤ℤ◌, ◌<ℤ◌, ltb_ℤ, leb_ℤ, eqb_ℤ, eq_of_parts, eqb_ℤ_iff, +ℤ_parts, -ℤ_parts, int_laws,
  IsInt64, wrap64, wrap64_id, wrap64-IsInt64, add64, sub64, mul64, quotient, remainder,
  quotient_nonneg, remainder_nonneg, bits64, neg_part-zero, pos_of, add64-pos, mul64-pos,
}
use ticket_hub.Common.Fmt.{show_ℤ}
use ticket_hub.Errors.{Code, GoError, infrastructure, new_error, Result, ok, err}
use ticket_hub.Action.{Action}
use ticket_hub.Program.Creation.{CreateOrderEvent, Message}
use ticket_hub.Order.Workers.{DiscardOrder, Rollback}

-- `DiscardOrderCompensationRepository`, as far as it is used here.
pub record DiscardRepository (D : Type 0) : Type 0 where
  pub list_pending : ℤ → ℤ → D → Result (List DiscardOrder)
  pub find_pending_by_id : ℤ → D → Result DiscardOrder
  pub mark_retried : ℤ → ℤ → Action D (Unit {0})

-- `DiscardOrderInventory`
pub record DiscardInventory (P : Type 0) : Type 0 where
  pub reserve_create_order : Rollback → Action P (Unit {0})
  pub rollback_create_order : Rollback → Action P (Unit {0})

pub record CompensationResult : Type 0 where
  pub requested : ℤ
  pub retried : ℤ
  pub skipped : ℤ

pub record CompensationService (D P E : Type 0) : Type 0 where
  pub discards : DiscardRepository D
  pub publish : Message → Action E (Unit {0})
  pub topic : String
  pub inventory : Option (DiscardInventory P)

pub record CompensationWorld (D P E : Type 0) : Type 0 where
  pub discards : D
  pub program : P
  pub events : E

unfoldable pub reservation_of : DiscardOrder → Rollback
reservation_of d = record {
  order_number = d.order_number;
  program_id = d.program_id;
  ticket_category_id = d.ticket_category_id;
  seat_ids = d.seat_ids;
  ticket_user_ids = d.ticket_user_ids;
  count =
      if ltb 0 (length d.seat_ids) then pos (length d.seat_ids) else pos (length d.ticket_user_ids);
}

unfoldable pub retry_event : ℤ → DiscardOrder → CreateOrderEvent
retry_event now d = record {
  order_number = d.order_number;
  program_id = d.program_id;
  user_id = d.user_id;
  ticket_category_id = d.ticket_category_id;
  seat_ids = d.seat_ids;
  ticket_user_ids = d.ticket_user_ids;
  amount_cent = d.amount_cent;
  identifier_id = pos 0;
  order_version = "retry-discard";
  created_at = now;
}

-- `NewDiscardOrderCompensationService`: the topic where none is given.
unfoldable pub topic_or_default : String → String
topic_or_default topic = if topic == "" then "ticket_hub.create_order" else topic

unfoldable pub pending_limit : ℤ → ℤ
pending_limit limit = if leb_ℤ limit (pos 0) || ltb_ℤ (pos 200) limit then pos 50 else limit

module _ {D P E : Type 0} (encode : CreateOrderEvent → Result String)
    (s : CompensationService D P E) where
  -- The message of a retry.
  unfoldable pub retry_message : ℤ → DiscardOrder → String → Message
  retry_message now d payload = record {
    topic = s.topic;
    key = show_ℤ d.order_number;
    event_id = show_ℤ d.id;
    schema_version = "v1";
    occurred_at = now;
    payload = payload;
  }

  -- The publication of a retry, whose seats are reserved: where it fails, they are given back,
  -- whatever that answers.
  unfoldable pub publish_retry :
      DiscardInventory P → ℤ → DiscardOrder → String → Action (CompensationWorld D P E) (Unit {0})
  unfolding retry_message reservation_of
  publish_retry inventory now d payload w =
      let (r, e) = s.publish (retry_message now d payload) w.events in
      elim r [
        | err x ↦ (
          err x,
          record w {
            program = (inventory.rollback_create_order (reservation_of d) w.program).1;
            events = e;
          },
        )
        | ok u ↦
            let (r', ds) = s.discards.mark_retried d.id now w.discards in
            (r', record w { discards = ds; events = e })
      ]

  -- The body of the loop of `retry`, for an order with a user.
  unfoldable pub retry_item : ℤ → DiscardOrder → Action (CompensationWorld D P E) (Unit {0})
  unfolding publish_retry reservation_of retry_event
  retry_item now d w = elim s.inventory [
    | none ↦
        (err (new_error infrastructure "discard order inventory reservation is not configured"), w)
    | some inventory ↦
        let (r, p) = inventory.reserve_create_order (reservation_of d) w.program in
        elim r [
          | err x ↦ (err x, record w { program = p })
          | ok u ↦ elim (encode (retry_event now d)) [
            | err x ↦ (err x, record w { program = p })
            | ok payload ↦ publish_retry inventory now d payload (record w { program = p })
          ]
        ]
  ]

  -- `retry`; the clock is read once for each order that has a user.
  unfoldable pub retry :
      (ℕ → ℤ)
      → List DiscardOrder
      → CompensationResult
      → Action (CompensationWorld D P E) CompensationResult
  unfolding retry_item
  retry clock [] result w = (ok result, w)
  retry clock (d ∷ ds) result w =
      let (r, w') = retry_item (clock 0) d w in
      let next = record result { retried = add64 result.retried (pos 1) } in
      let over = record result { skipped = add64 result.skipped (pos 1) } in
      elim (leb_ℤ d.user_id (pos 0)) [
        | true ↦ retry clock ds over w
        | false ↦ elim r [ err x ↦ (err x, w') | ok u ↦ retry (λ i. clock (suc i)) ds next w' ]
      ]

  abbrev pub requested_of : List DiscardOrder → CompensationResult
  requested_of ds = record { requested = pos (length ds); retried = pos 0; skipped = pos 0 }

  -- `RetryByID`
  unfoldable pub retry_by_id : (ℕ → ℤ) → ℤ → Action (CompensationWorld D P E) CompensationResult
  unfolding retry
  retry_by_id clock id w =
      if leb_ℤ id (pos 0)
      then (err (new_error Code.invalid_argument "discard order id is required"), w)
      else elim (s.discards.find_pending_by_id id w.discards) [
        | err x ↦ (err x, w)
        | ok d ↦ retry clock (d ∷ []) (requested_of (d ∷ [])) w
      ]

  -- `RetryProgram`
  unfoldable pub retry_program :
      (ℕ → ℤ) → ℤ → ℤ → Action (CompensationWorld D P E) CompensationResult
  unfolding retry pending_limit
  retry_program clock program limit w =
      elim (s.discards.list_pending program (pending_limit limit) w.discards) [
        | err x ↦ (err x, w)
        | ok ds ↦ retry clock ds (requested_of ds) w
      ]
