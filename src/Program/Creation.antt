-- ===== src/Program/Creation.antt =====
-- app/program-service/internal/application/create_order.go, with idempotency.go. The services that
-- the use case calls are interfaces of the source; the trimmed length of a key, the digest of a
-- purchase and the JSON of an event are parameters. The times are readings of the clock; metrics
-- are left out.
use ticket_hub.Common.{
  ℕ, zero, suc, ◌+◌, ◌-◌, ◌*◌, ◌/◌, ◌%◌, ◌^◌, ◌≤◌, ◌<◌, ℤ, pos, negsuc, String, ◌≡◌, ◌≢◌, refl, sym,
  ap, subst, ◌∙◌, ◌↔◌, ◌⊎◌, inl, inr, Bool, true, false, not, ◌&&◌, ◌||◌, Option, none, some, List,
  [], ◌∷◌, ◌++◌, map, arith, ltb, leb, nat_eqb, if◌then◌else◌, Bool-cases, Option-cases, Eq, ◌==◌,
  nat_eq, string_eq, int_eq, ==_refl, ==_ne, length, get_elem?, take, length-append, length-take,
  All, Mem, pos_part, neg_part, sub_ℕ, ◌+ℤ◌, ◌-ℤ◌, ◌*ℤ◌, ◌≤ℤ◌, ◌<ℤ◌, ltb_ℤ, leb_ℤ, eqb_ℤ,
  eq_of_parts, eqb_ℤ_iff, +ℤ_parts, -ℤ_parts, int_laws, IsInt64, wrap64, wrap64_id, wrap64-IsInt64,
  add64, sub64, mul64, quotient, remainder, quotient_nonneg, remainder_nonneg, bits64,
  neg_part-zero, pos_of, add64-pos, mul64-pos,
}
use ticket_hub.Errors.{
  Code, too_many_requests, duplicate_submission, join, GoError, new_error, Result, ok, err,
  Result-cases,
}
use ticket_hub.Action.{Action, gets, pure, fail, ◌>>=◌, ◌>>◌}
use ticket_hub.Common.Fmt.{show_ℤ}
use ticket_hub.Program.{Seat, CreateOrderCommand}
use ticket_hub.Program.Idempotency.{
  IdempotencyState, acquired, processing, completed, IdempotencyResult,
}
pub mod Outcomes
pub mod Atomic
pub mod Memory
mod Tests

pub record CreateOrderEvent : Type 0 where
  pub order_number : ℤ
  pub program_id : ℤ
  pub user_id : ℤ
  pub ticket_category_id : ℤ
  pub seat_ids : List ℤ
  pub ticket_user_ids : List ℤ
  pub amount_cent : ℤ
  pub identifier_id : ℤ
  pub order_version : String
  pub created_at : ℤ

-- `mq.Event` as it is published here: the payload is the JSON of the event.
pub record Message : Type 0 where
  pub topic : String
  pub key : String
  pub event_id : String
  pub schema_version : String
  pub occurred_at : ℤ
  pub payload : String

-- The states of the services: rate limits, idempotency keys, number generators, inventory, messages.
pub record World (T K N V E : Type 0) : Type 0 where
  pub limits : T
  pub keys : K
  pub numbers : N
  pub inventory : V
  pub events : E

-- `CreateOrderUsecase`
pub record CreateOrderUsecase (T K N V E : Type 0) : Type 0 where
  pub validator : Option (CreateOrderCommand → Result (Unit {0}))
  pub rate_limiter : Option (CreateOrderCommand → Action T Bool)
  pub begin : String → String → ℤ → Action K IdempotencyResult
  pub complete : String → String → ℤ → ℤ → Action K (Unit {0})
  pub abort : String → String → Action K (Unit {0})
  pub calculate_amount : CreateOrderCommand → Result ℤ
  pub next_order_number : ℤ → Action N ℤ
  pub next_id : Action N ℤ
  pub lock_seats : CreateOrderCommand → ℤ → ℤ → Action V (List Seat)
  pub rollback_seats : CreateOrderCommand → ℤ → ℤ → Action V (Unit {0})
  pub publish : Message → Action E (Unit {0})
  pub processing_ttl : ℤ
  pub result_ttl : ℤ

-- `validateIdempotencyKey`, for a key with that many bytes after trimming.
unfoldable pub validate_idempotency_key : ℤ → Result (Unit {0})
validate_idempotency_key trimmed_length =
    if ltb_ℤ trimmed_length (pos 8) || ltb_ℤ (pos 128) trimmed_length
    then err (new_error Code.invalid_argument "idempotency key must contain 8 to 128 characters")
    else ok tt

-- The event of a purchase.
abbrev pub event_of : CreateOrderCommand → ℤ → ℤ → ℤ → ℤ → CreateOrderEvent
event_of cmd order_number amount_cent identifier_id created_at = record {
  order_number = order_number;
  program_id = cmd.program_id;
  user_id = cmd.user_id;
  ticket_category_id = cmd.ticket_category_id;
  seat_ids = cmd.seat_ids;
  ticket_user_ids = cmd.ticket_user_ids;
  amount_cent = amount_cent;
  identifier_id = identifier_id;
  order_version = "async-kafka";
  created_at = created_at;
}

abbrev pub message_of : ℤ → ℤ → ℤ → String → Message
message_of order_number identifier_id occurred_at payload = record {
  topic = "ticket_hub.create_order";
  key = show_ℤ order_number;
  event_id = show_ℤ identifier_id;
  schema_version = "v1";
  occurred_at = occurred_at;
  payload = payload;
}

module _ {T K N V E : Type 0} (u : CreateOrderUsecase T K N V E) where
  abbrev pub on_limits : {A : Type 0} → Action T A → Action (World T K N V E) A
  on_limits m w = let (r, s) = m w.limits in (r, record w { limits = s })

  abbrev pub on_keys : {A : Type 0} → Action K A → Action (World T K N V E) A
  on_keys m w = let (r, s) = m w.keys in (r, record w { keys = s })

  abbrev pub on_numbers : {A : Type 0} → Action N A → Action (World T K N V E) A
  on_numbers m w = let (r, s) = m w.numbers in (r, record w { numbers = s })

  abbrev pub on_inventory : {A : Type 0} → Action V A → Action (World T K N V E) A
  on_inventory m w = let (r, s) = m w.inventory in (r, record w { inventory = s })

  abbrev pub on_events : {A : Type 0} → Action E A → Action (World T K N V E) A
  on_events m w = let (r, s) = m w.events in (r, record w { events = s })

  -- The answer to a publication: where it failed, the seats are given back.
  unfoldable pub after_publish :
      CreateOrderCommand → ℤ → ℤ → Result (Unit {0}) → Action (World T K N V E) ℤ
  after_publish cmd order_number identifier_id (ok a) w = (ok order_number, w)
  after_publish cmd order_number identifier_id (err e) w =
      let (r, w') = on_inventory (u.rollback_seats cmd order_number identifier_id) w in
      elim r [ err rollback_error ↦ (err (join e rollback_error), w') | ok a ↦ (err e, w') ]

  -- The seats are locked, and the message is published.
  unfoldable pub reserve : CreateOrderCommand → ℤ → ℤ → Message → Action (World T K N V E) ℤ
  unfolding after_publish
  reserve cmd order_number identifier_id message = do
    seats ← on_inventory (u.lock_seats cmd order_number identifier_id)
    λ w.
        let (r, w') = on_events (u.publish message) w in
        after_publish cmd order_number identifier_id r w'

  -- The part of `CreateAsync` whose failure gives the idempotency key back.
  unfoldable pub attempt :
      (CreateOrderEvent → Result String) → ℤ → ℤ → CreateOrderCommand → Action (World T K N V E) ℤ
  unfolding reserve
  attempt encode created_at occurred_at cmd = do
    amount_cent ← gets (λ w. u.calculate_amount cmd)
    order_number ← on_numbers (u.next_order_number cmd.user_id)
    identifier_id ← on_numbers u.next_id
    payload ← gets (λ w. encode (event_of cmd order_number amount_cent identifier_id created_at))
    reserve cmd order_number identifier_id
        (message_of order_number identifier_id occurred_at payload)

  -- What is left once the part above has ended: the key is given back, or completed.
  unfoldable pub settle_key : CreateOrderCommand → String → Result ℤ → Action (World T K N V E) ℤ
  settle_key cmd fingerprint (err e) w =
      let (r, w') = on_keys (u.abort cmd.request_id fingerprint) w in (err e, w')
  settle_key cmd fingerprint (ok order_number) w =
      (on_keys (u.complete cmd.request_id fingerprint order_number u.result_ttl)
          >> pure order_number)
        w

  -- `CreateAsync` from the answer of `Begin` on.
  unfoldable pub with_key :
      (CreateOrderEvent → Result String)
      → ℤ
      → ℤ
      → CreateOrderCommand
      → String
      → IdempotencyResult
      → Action (World T K N V E) ℤ
  unfolding settle_key
  with_key encode created_at occurred_at cmd fingerprint found w = elim found.state [
    | completed ↦ (ok found.order_number, w)
    | processing ↦ (err (new_error duplicate_submission "order request is already processing"), w)
    | acquired ↦
        let (r, w') = attempt encode created_at occurred_at cmd w in settle_key cmd fingerprint r w'
  ]

  unfoldable pub check_validator : CreateOrderCommand → Result (Unit {0})
  check_validator cmd = elim u.validator [ none ↦ ok tt | some validate ↦ validate cmd ]

  abbrev pub check_allowed : Bool → Action (World T K N V E) (Unit {0})
  check_allowed true = pure tt
  check_allowed false = fail (new_error too_many_requests "purchase request rate exceeded")

  unfoldable pub check_rate : CreateOrderCommand → Action (World T K N V E) (Unit {0})
  check_rate cmd = elim u.rate_limiter [
    | none ↦ pure tt
    | some allow ↦ do allowed ← on_limits (allow cmd); check_allowed allowed
  ]

  -- `CreateAsync`: the number of the order.
  unfoldable pub create_async :
      (String → ℤ)
      → (CreateOrderCommand → Result String)
      → (CreateOrderEvent → Result String)
      → ℤ
      → ℤ
      → CreateOrderCommand
      → Action (World T K N V E) ℤ
  create_async trimmed_length digest encode created_at occurred_at cmd = do
    gets (λ w. check_validator cmd)
    check_rate cmd
    gets (λ w. validate_idempotency_key (trimmed_length cmd.request_id))
    fingerprint ← gets (λ w. digest cmd)
    found ← on_keys (u.begin cmd.request_id fingerprint u.processing_ttl)
    with_key encode created_at occurred_at cmd fingerprint found
