-- ===== src/DelayQueue.antt =====
-- pkg/delayqueue: messages that become available at a time (queue.go), and the queue in memory
-- (memory_queue.go). The mutex makes each method one step; a topic without a map reads like an empty
-- one. A payload is the text of its bytes.
pub mod Topic
pub mod Operations
pub mod Invariant
pub mod Hidden
pub mod Due
pub mod Delivery
pub mod Given
pub mod Waiting
mod Tests
use ticket_hub.Common.{
  ℕ, zero, suc, ℤ, pos, String, Bool, true, false, not, ◌&&◌, Option, none, some, List, [], ◌∷◌,
  map, ◌==◌, string_eq, int_eq, if◌then◌else◌, ltb_ℤ, leb_ℤ, ◌+ℤ◌, add64, take, pos_part, eqb_ℤ,
  length, ltb,
}
use ticket_hub.Common.Dict.{Dict, lookup, insert, erase}
use ticket_hub.Common.Sort.{text_ltb, sort_by}
use ticket_hub.Errors.{Result, ok}
use ticket_hub.Action.{Action}

pub record Message : Type 0 where
  pub id : String
  pub topic : String
  pub payload : String
  pub available_at : ℤ
  pub attempts : ℤ

-- `Queue`, over the state `Q` of a queue.
pub record Queue (Q : Type 0) : Type 0 where
  pub enqueue : Message → Action Q (Unit {0})
  pub claim_due : String → ℤ → ℤ → Action Q (List Message)
  pub ack : String → String → Action Q (Unit {0})

pub record MemoryClaim : Type 0 where
  pub message : Message
  pub visible_at : ℤ

abbrev pub Ready : Type 0
Ready = Dict String Message

abbrev pub Claims : Type 0
Claims = Dict String MemoryClaim

pub record MemoryQueue : Type 0 where
  pub messages : Dict String Ready
  pub processing : Dict String Claims
  pub visibility_timeout : ℤ

-- `NewMemoryQueue`: two minutes.
unfoldable pub new_memory_queue : MemoryQueue
new_memory_queue = record {
  messages = [];
  processing = [];
  visibility_timeout = pos 120_000_000_000;
}

-- `WithVisibilityTimeout`
unfoldable pub with_visibility_timeout : ℤ → MemoryQueue → MemoryQueue
with_visibility_timeout timeout q =
    if ltb_ℤ (pos 0) timeout then record q { visibility_timeout = timeout } else q

-- `maps[topic]`, where a missing map reads like an empty one.
unfoldable pub topic_of : {V : Type 0} → String → Dict String (Dict String V) → Dict String V
topic_of topic maps = elim (lookup topic maps) [ none ↦ [] | some m ↦ m ]

-- `delete(maps[topic], id)`
unfoldable pub forget :
    {V : Type 0} → String → String → Dict String (Dict String V) → Dict String (Dict String V)
forget topic id maps = elim (lookup topic maps) [
  | none ↦ maps
  | some m ↦ insert topic (erase id m) maps
]

-- `Enqueue`
unfoldable pub enqueue : Message → Action MemoryQueue (Unit {0})
unfolding topic_of forget
enqueue msg q = (
  ok tt,
  record q {
    messages = insert msg.topic (insert msg.id msg (topic_of msg.topic q.messages)) q.messages;
    processing = forget msg.topic msg.id q.processing;
  },
)

-- `Ack`
unfoldable pub ack : String → String → Action MemoryQueue (Unit {0})
unfolding forget
ack topic id q = (
  ok tt,
  record q { messages = forget topic id q.messages; processing = forget topic id q.processing },
)

-- The two maps of one topic.
abbrev pub TopicMaps : Type 0
TopicMaps = Ready × Claims

-- The loop that makes the claims that have run out available again: one claim, then all.
unfoldable pub restore_claim : ℤ → String → MemoryClaim → TopicMaps → TopicMaps
restore_claim now id claim (ready, claims) =
    if not (ltb_ℤ now claim.visible_at)
    then (insert id claim.message ready, erase id claims)
    else (ready, claims)

unfoldable pub restore : ℤ → Claims → TopicMaps → TopicMaps
unfolding restore_claim
restore now [] maps = maps
restore now ((id, claim) ∷ entries) maps = restore now entries (restore_claim now id claim maps)

-- The loop that collects the messages that are due.
unfoldable pub due_of : ℤ → Ready → List Message
due_of now [] = []
due_of now ((id, msg) ∷ ready) =
    let rest = due_of now ready in if not (ltb_ℤ now msg.available_at) then msg ∷ rest else rest

-- The comparison of the sort: by time, then by id.
unfoldable pub comes_before : Message → Message → Bool
unfolding text_ltb
comes_before a b =
    if eqb_ℤ a.available_at b.available_at
    then text_ltb a.id b.id
    else ltb_ℤ a.available_at b.available_at

-- `due[index].Attempts++`
abbrev pub attempted : Message → Message
attempted msg = record msg { attempts = add64 msg.attempts (pos 1) }

-- The loop that claims the messages, visible again at the time `visible_at`: one message, then all.
unfoldable pub claim_message : ℤ → Message → TopicMaps → TopicMaps
claim_message visible_at msg (ready, claims) = (
  erase msg.id ready,
  insert msg.id (record { message = attempted msg; visible_at = visible_at }) claims,
)

unfoldable pub hand_out : ℤ → List Message → TopicMaps → TopicMaps
unfolding claim_message
hand_out visible_at [] maps = maps
hand_out visible_at (msg ∷ due) maps = hand_out visible_at due (claim_message visible_at msg maps)

-- The messages of a topic that are claimed, before they are handed out.
unfoldable pub selected : ℤ → ℤ → Ready → List Message
unfolding due_of sort_by comes_before
selected now limit ready =
    let due = sort_by comes_before (due_of now ready) in
    if ltb_ℤ limit (pos (length due)) then take (pos_part limit) due else due

-- The body of `ClaimDue` on the two maps of its topic, for a positive limit.
unfoldable pub claim_topic : ℤ → ℤ → ℤ → TopicMaps → List Message × TopicMaps
unfolding restore selected hand_out
claim_topic now timeout limit maps =
    let maps' = restore now maps.1 maps in
    let due = selected now limit maps'.0 in (map attempted due, hand_out (now +ℤ timeout) due maps')

-- `ClaimDue`
unfoldable pub claim_due : String → ℤ → ℤ → Action MemoryQueue (List Message)
unfolding topic_of
claim_due topic now limit q =
    if leb_ℤ limit (pos 0)
    then (ok [], q)
    else let maps : TopicMaps = (topic_of topic q.messages, topic_of topic q.processing) in
      let (due, maps') = claim_topic now q.visibility_timeout limit maps in
      (
        ok due,
        record q {
          messages = insert topic maps'.0 q.messages;
          processing = insert topic maps'.1 q.processing;
        },
      )

abbrev pub memory_queue : Queue MemoryQueue
memory_queue = record { enqueue = enqueue; claim_due = claim_due; ack = ack }
