-- ===== src/Order/Compensation/Ends.antt =====
-- app/order-service/internal/application/compensation.go: the ways in which the retry of an order may
-- end.
use ticket_hub.Common.{
  ◌<◌, ℤ, pos, String, ◌≡◌, refl, ◌⊎◌, inl, inr, List, [], ◌∷◌, arith, ltb, if◌then◌else◌, nat_eq,
  string_eq, int_eq, length, ◌≤ℤ◌, ◌<ℤ◌,
}
use ticket_hub.Common.Fmt.{show_ℤ}
use ticket_hub.Errors.{GoError, Result, ok, err}
use ticket_hub.Program.Creation.{CreateOrderEvent, Message}
use ticket_hub.Order.Workers.{DiscardOrder, Rollback}
use ticket_hub.Order.Compensation.{
  DiscardInventory, CompensationResult, CompensationService, CompensationWorld, reservation_of,
  retry_event,
}

-- What is reserved for a discarded order: one ticket for each seat, or for each ticket user where
-- there are no seats.
pub record IsReservation (d : DiscardOrder) (r : Rollback) : Type 0 where
  pub number_lem : r.order_number ≡ d.order_number
  pub program_lem : r.program_id ≡ d.program_id
  pub category_lem : r.ticket_category_id ≡ d.ticket_category_id
  pub seats_lem : r.seat_ids ≡ d.seat_ids
  pub users_lem : r.ticket_user_ids ≡ d.ticket_user_ids
  pub count_lem :
      ((d.seat_ids ≡ []) × (r.count ≡ pos (length d.ticket_user_ids)))
      ⊎ ((0 < length d.seat_ids) × (r.count ≡ pos (length d.seat_ids)))

pub reservation_of-IsReservation : (d : DiscardOrder) → IsReservation d (reservation_of d)
unfolding reservation_of
reservation_of-IsReservation d = record {
  number_lem = refl;
  program_lem = refl;
  category_lem = refl;
  seats_lem = refl;
  users_lem = refl;
  count_lem = count d.seat_ids d.ticket_user_ids;
}
  where
    count :
        (seats users : List ℤ)
        → let n = if ltb 0 (length seats) then pos (length seats) else pos (length users) in
          ((seats ≡ []) × (n ≡ pos (length users)))
          ⊎ ((0 < length seats) × (n ≡ pos (length seats)))
    count [] users = inl (refl, refl)
    count (x ∷ xs) users = inr (omega arith, ground arith)

-- The event of a discarded order that is tried again at the time `now`.
pub record IsRetryEvent (now : ℤ) (d : DiscardOrder) (e : CreateOrderEvent) : Type 0 where
  pub number_lem : e.order_number ≡ d.order_number
  pub program_lem : e.program_id ≡ d.program_id
  pub user_lem : e.user_id ≡ d.user_id
  pub category_lem : e.ticket_category_id ≡ d.ticket_category_id
  pub seats_lem : e.seat_ids ≡ d.seat_ids
  pub users_lem : e.ticket_user_ids ≡ d.ticket_user_ids
  pub amount_lem : e.amount_cent ≡ d.amount_cent
  pub identifier_lem : e.identifier_id ≡ pos 0
  pub version_lem : e.order_version ≡ "retry-discard"
  pub created_lem : e.created_at ≡ now

pub retry_event-IsRetryEvent : (now : ℤ) (d : DiscardOrder) → IsRetryEvent now d (retry_event now d)
unfolding retry_event
retry_event-IsRetryEvent now d = record {
  number_lem = refl;
  program_lem = refl;
  user_lem = refl;
  category_lem = refl;
  seats_lem = refl;
  users_lem = refl;
  amount_lem = refl;
  identifier_lem = refl;
  version_lem = refl;
  created_lem = refl;
}

module _ {D P E : Type 0} (encode : CreateOrderEvent → Result String)
    (s : CompensationService D P E) (inventory : DiscardInventory P) where
  -- The message of a retry, which carries the JSON of its event.
  pub record IsRetryMessage (now : ℤ) (d : DiscardOrder) (m : Message) : Type 0 where
    pub event : CreateOrderEvent
    pub event_lem : IsRetryEvent now d event
    pub payload_lem : encode event ≡ ok m.payload
    pub topic_lem : m.topic ≡ s.topic
    pub key_lem : m.key ≡ show_ℤ d.order_number
    pub event_id_lem : m.event_id ≡ show_ℤ d.id
    pub schema_lem : m.schema_version ≡ "v1"
    pub time_lem : m.occurred_at ≡ now

  -- The ends of the retry of an order at the time `now`, with what is reserved for it, from the
  -- state `w` to the state `w'` with the result `t`.
  pub data RetryEnd (now : ℤ) (d : DiscardOrder) (r : Rollback) (w w' : CompensationWorld D P E)
      (t : Result (Unit {0})) : Type 0 where
    refused :
        (e : GoError)
        → (inventory.reserve_create_order r w.program).0 ≡ err e
        → t ≡ err e
        → w' ≡ record w { program = (inventory.reserve_create_order r w.program).1 }
        → RetryEnd now d r w w' t
    unwritten :
        (event : CreateOrderEvent) (e : GoError)
        → IsRetryEvent now d event
        → (inventory.reserve_create_order r w.program).0 ≡ ok tt
        → encode event ≡ err e
        → t ≡ err e
        → w' ≡ record w { program = (inventory.reserve_create_order r w.program).1 }
        → RetryEnd now d r w w' t
    unpublished :
        (m : Message) (e : GoError)
        → IsRetryMessage now d m
        → (inventory.reserve_create_order r w.program).0 ≡ ok tt
        → (s.publish m w.events).0 ≡ err e
        → t ≡ err e
        → w' ≡ record w {
          program =
              (inventory.rollback_create_order r (inventory.reserve_create_order r w.program).1).1;
          events = (s.publish m w.events).1;
        }
        → RetryEnd now d r w w' t
    published :
        (m : Message)
        → IsRetryMessage now d m
        → (inventory.reserve_create_order r w.program).0 ≡ ok tt
        → (s.publish m w.events).0 ≡ ok tt
        → t ≡ (s.discards.mark_retried d.id now w.discards).0
        → w' ≡ record w {
          program = (inventory.reserve_create_order r w.program).1;
          events = (s.publish m w.events).1;
          discards = (s.discards.mark_retried d.id now w.discards).1;
        }
        → RetryEnd now d r w w' t

  abbrev pub ItemEnds :
      DiscardOrder → CompensationWorld D P E → CompensationWorld D P E → Result (Unit {0}) → Type 0
  ItemEnds d w w' t = (now : ℤ) × (r : Rollback) × IsReservation d r × RetryEnd now d r w w' t

  -- The retries of the orders of a list that have a user, from the state `w` on: each one succeeds,
  -- or it is the last one, whose error is the result.
  abbrev pub Runs :
      List DiscardOrder
      → CompensationWorld D P E
      → Result CompensationResult × CompensationWorld D P E
      → Type 0
  Runs [] w t = (t.1 ≡ w) × (result : CompensationResult) × (t.0 ≡ ok result)
  Runs (d ∷ ds) w t =
      ((d.user_id ≤ℤ pos 0) × Runs ds w t)
      ⊎ ((pos 0 <ℤ d.user_id)
          × (((w' : CompensationWorld D P E) × ItemEnds d w w' (ok tt) × Runs ds w' t)
              ⊎ ((e : GoError) × ItemEnds d w t.1 (err e) × (t.0 ≡ err e))))
