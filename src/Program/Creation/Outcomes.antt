-- ===== src/Program/Creation/Outcomes.antt =====
-- app/program-service/internal/application/create_order.go: the ways in which a purchase may end.
use ticket_hub.Common.{ℤ, String, ◌≡◌, ◌⊎◌, List, nat_eq, string_eq, int_eq}
use ticket_hub.Common.Fmt.{show_ℤ}
use ticket_hub.Errors.{join, GoError, Result, ok, err}
use ticket_hub.Program.{Seat, CreateOrderCommand}
use ticket_hub.Program.Idempotency.{completed, IdempotencyResult}
use ticket_hub.Program.Creation.{CreateOrderEvent, Message, World, CreateOrderUsecase}

-- What the use case relies on of an inventory: `Same v v'` is that the same tickets and seats are
-- to be had, `Valid` is kept by the inventory. A lock that fails takes nothing, and giving back
-- what a lock took restores what was there.
pub record IsInventory {T K N V E : Type 0} (u : CreateOrderUsecase T K N V E) (Valid : V → Type 0)
    (Same : V → V → Type 0) : Type 0 where
  pub same_refl : (v : V) → Same v v
  pub lock_failed :
      (cmd : CreateOrderCommand) (n i : ℤ) (v : V) (e : GoError)
      → (u.lock_seats cmd n i v).0 ≡ err e
      → Same v (u.lock_seats cmd n i v).1
  pub lock_rolled_back :
      (cmd : CreateOrderCommand) (n i : ℤ) (v : V) (seats : List Seat)
      → Valid v
      → (u.lock_seats cmd n i v).0 ≡ ok seats
      → (u.rollback_seats cmd n i (u.lock_seats cmd n i v).1).0 ≡ ok tt
      → Same v (u.rollback_seats cmd n i (u.lock_seats cmd n i v).1).1

module _ {T K N V E : Type 0} (u : CreateOrderUsecase T K N V E) (Same : V → V → Type 0)
    (encode : CreateOrderEvent → Result String) (created_at occurred_at : ℤ) where
  -- The message of a purchase: its order number and its identifier are the next ones of the number
  -- generators, its amount is the one that is calculated, and its payload is the JSON of the order.
  pub record IsMessage (cmd : CreateOrderCommand) (numbers : N) (n identifier_id : ℤ)
      (message : Message) : Type 0 where
    pub amount : ℤ
    pub payload : String
    pub amount_lem : u.calculate_amount cmd ≡ ok amount
    pub number_lem : (u.next_order_number cmd.user_id numbers).0 ≡ ok n
    pub identifier_lem :
        (u.next_id (u.next_order_number cmd.user_id numbers).1).0 ≡ ok identifier_id
    pub payload_lem :
        encode (record {
          order_number = n;
          program_id = cmd.program_id;
          user_id = cmd.user_id;
          ticket_category_id = cmd.ticket_category_id;
          seat_ids = cmd.seat_ids;
          ticket_user_ids = cmd.ticket_user_ids;
          amount_cent = amount;
          identifier_id = identifier_id;
          order_version = "async-kafka";
          created_at = created_at;
        })
        ≡ ok payload
    pub topic_lem : message.topic ≡ "ticket_hub.create_order"
    pub key_lem : message.key ≡ show_ℤ n
    pub event_id_lem : message.event_id ≡ show_ℤ identifier_id
    pub schema_lem : message.schema_version ≡ "v1"
    pub time_lem : message.occurred_at ≡ occurred_at
    pub content_lem : message.payload ≡ payload

  -- The seats are locked for the order `n`, and the message of the purchase was published.
  pub record Reserved (cmd : CreateOrderCommand) (numbers : N) (v v' : V) (s s' : E) (n : ℤ)
      : Type 0 where
    pub identifier_id : ℤ
    pub message : Message
    pub seats : List Seat
    pub message_lem : IsMessage cmd numbers n identifier_id message
    pub lock_lem : (u.lock_seats cmd n identifier_id v).0 ≡ ok seats
    pub inventory_lem : v' ≡ (u.lock_seats cmd n identifier_id v).1
    pub publish_lem : (u.publish message s).0 ≡ ok tt
    pub events_lem : s' ≡ (u.publish message s).1

  -- The same seats are to be had as before, and no message was published: none was tried, or the
  -- publication of the purchase's message failed with the error `e`.
  pub record Unreserved (cmd : CreateOrderCommand) (numbers : N) (v v' : V) (s s' : E) (e : GoError)
      : Type 0 where
    pub inventory_lem : Same v v'
    pub events_lem :
        (s' ≡ s)
        ⊎ ((n : ℤ) × (identifier_id : ℤ) × (message : Message) × IsMessage cmd numbers n
              identifier_id message
            × ((u.publish message s).0 ≡ err e)
            × (s' ≡ (u.publish message s).1))

  -- The seats were locked for an order, the publication of its message failed with the error `e`, and
  -- giving the seats back failed with the error `rollback_error`.
  pub record LeftLocked (cmd : CreateOrderCommand) (numbers : N) (v v' : V) (s s' : E)
      (e rollback_error : GoError) : Type 0 where
    pub number : ℤ
    pub identifier_id : ℤ
    pub message : Message
    pub seats : List Seat
    pub message_lem : IsMessage cmd numbers number identifier_id message
    pub lock_lem : (u.lock_seats cmd number identifier_id v).0 ≡ ok seats
    pub publish_lem : (u.publish message s).0 ≡ err e
    pub events_lem : s' ≡ (u.publish message s).1
    pub rollback_lem :
        (u.rollback_seats cmd number identifier_id (u.lock_seats cmd number identifier_id v).1).0
        ≡ err rollback_error
    pub inventory_lem :
        v'
        ≡ (u.rollback_seats cmd number identifier_id (u.lock_seats cmd number identifier_id v).1).1

  -- The ends of the part that reserves the seats, with the result `r`.
  pub data Reservation (cmd : CreateOrderCommand) (numbers : N) (v v' : V) (s s' : E) (r : Result ℤ)
      : Type 0 where
    reserved :
        (n : ℤ) → r ≡ ok n → Reserved cmd numbers v v' s s' n → Reservation cmd numbers v v' s s' r
    refused :
        (e : GoError)
        → r ≡ err e
        → Unreserved cmd numbers v v' s s' e
        → Reservation cmd numbers v v' s s' r
    stuck :
        (e rollback_error : GoError)
        → r ≡ err (join e rollback_error)
        → LeftLocked cmd numbers v v' s s' e rollback_error
        → Reservation cmd numbers v v' s s' r

  -- The ends of a purchase with the result `r`: the inventory goes from `v` to `v'`, the messages
  -- from `s` to `s'`, and `keys` and `numbers` are the idempotency keys and the number generators
  -- that it starts from.
  pub data Outcome (cmd : CreateOrderCommand) (keys : K) (numbers : N) (v v' : V) (s s' : E)
      (r : Result ℤ) : Type 0 where
    accepted :
        (n : ℤ)
        → (r ≡ ok n)
          ⊎ ((fingerprint : String) × (k : K) × (e : GoError) × ((u.complete cmd.request_id
                  fingerprint n u.result_ttl k).0
                ≡ err e)
              × (r ≡ err e))
        → Reserved cmd numbers v v' s s' n
        → Outcome cmd keys numbers v v' s s' r
    replayed :
        (fingerprint : String) (found : IdempotencyResult)
        → (u.begin cmd.request_id fingerprint u.processing_ttl keys).0 ≡ ok found
        → found.state ≡ completed
        → r ≡ ok found.order_number
        → v' ≡ v
        → s' ≡ s
        → Outcome cmd keys numbers v v' s s' r
    rejected :
        (e : GoError)
        → r ≡ err e
        → Unreserved cmd numbers v v' s s' e
        → Outcome cmd keys numbers v v' s s' r
    left_locked :
        (e rollback_error : GoError)
        → r ≡ err (join e rollback_error)
        → LeftLocked cmd numbers v v' s s' e rollback_error
        → Outcome cmd keys numbers v v' s s' r

  abbrev pub Reserves :
      CreateOrderCommand → N → World T K N V E → Result ℤ × World T K N V E → Type 0
  Reserves cmd numbers w t =
      Reservation cmd numbers w.inventory t.1.inventory w.events t.1.events t.0

  abbrev pub Ends : CreateOrderCommand → World T K N V E → Result ℤ × World T K N V E → Type 0
  Ends cmd w t = Outcome cmd w.keys w.numbers w.inventory t.1.inventory w.events t.1.events t.0
