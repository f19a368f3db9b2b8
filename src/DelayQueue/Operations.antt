-- ===== src/DelayQueue/Operations.antt =====
-- The operations of the queue in memory, one after the other, and what they do to the maps of one
-- topic.
use ticket_hub.Common.{
  ℤ, pos, String, ◌≡◌, refl, ap, subst, ◌∙◌, inl, inr, not, ◌&&◌, none, some, List, [], ◌∷◌, arith,
  if◌then◌else◌, Bool-cases, Option-cases, ◌==◌, nat_eq, string_eq, int_eq, All, leb_ℤ,
}
use ticket_hub.Common.Dict.{Dict, lookup, insert, erase, lookup-insert}
use ticket_hub.DelayQueue.{
  Message, TopicMaps, MemoryQueue, topic_of, forget, enqueue, ack, claim_topic, claim_due,
}

-- A call of the queue.
pub data Call : Type 0 where
  enqueuing : Message → Call
  claiming : String → ℤ → ℤ → Call
  acking : String → String → Call

unfoldable pub call : Call → MemoryQueue → MemoryQueue
unfolding enqueue claim_due ack
call (enqueuing msg) q = (enqueue msg q).1
call (claiming topic now limit) q = (claim_due topic now limit q).1
call (acking topic id) q = (ack topic id q).1

unfoldable pub run : List Call → MemoryQueue → MemoryQueue
unfolding call
run [] q = q
run (c ∷ cs) q = run cs (call c q)

unfoldable pub maps_of : String → MemoryQueue → TopicMaps
unfolding topic_of
maps_of topic q = (topic_of topic q.messages, topic_of topic q.processing)

-- A topic that is a queue of its own.
unfoldable pub topic_call : String → ℤ → Call → TopicMaps → TopicMaps
unfolding claim_topic
topic_call topic timeout (enqueuing msg) (ready, claims) =
    if msg.topic == topic then (insert msg.id msg ready, erase msg.id claims) else (ready, claims)
topic_call topic timeout (claiming at now limit) maps =
    if at == topic && not (leb_ℤ limit (pos 0))
    then (claim_topic now timeout limit maps).1
    else maps
topic_call topic timeout (acking at id) (ready, claims) =
    if at == topic then (erase id ready, erase id claims) else (ready, claims)

unfoldable pub topic_run : String → ℤ → List Call → TopicMaps → TopicMaps
unfolding topic_call
topic_run topic timeout [] maps = maps
topic_run topic timeout (c ∷ cs) maps = topic_run topic timeout cs (topic_call topic timeout c maps)

topic_of-insert :
    {V : Type 0} (s t : String) (m : Dict String V) (maps : Dict String (Dict String V))
    → topic_of t (insert s m maps) ≡ (if s == t then m else topic_of t maps)
unfolding topic_of
topic_of-insert s t m maps = ground (arith, lookup-insert s t m maps)

topic_of-forget :
    {V : Type 0} (s t id : String) (maps : Dict String (Dict String V))
    → topic_of t (forget s id maps)
      ≡ (if s == t then erase id (topic_of t maps) else topic_of t maps)
unfolding topic_of forget erase
topic_of-forget s t id maps = elim (Bool-cases (s == t)) [
  | inl hit ↦
      let same : s ≡ t = (string_eq.beq_iff s t).0 hit in
      elim (Option-cases (lookup s maps)) [
        | inl missing ↦
            let missing' : lookup t maps ≡ none =
              subst (λ (u : String). lookup u maps ≡ none) same missing in
            ground (arith, hit, missing, missing')
        | inr (m, found) ↦
            let found' : lookup t maps ≡ some m =
              subst (λ (u : String). lookup u maps ≡ some m) same found in
            ground (arith, hit, found, found', lookup-insert s t (erase id m) maps)
      ]
  | inr miss ↦ elim (Option-cases (lookup s maps)) [
    | inl missing ↦ ground (arith, miss, missing)
    | inr (m, found) ↦ ground (arith, miss, found, lookup-insert s t (erase id m) maps)
  ]
]

pub call-visibility_timeout :
    (c : Call) (q : MemoryQueue) → (call c q).visibility_timeout ≡ q.visibility_timeout
unfolding call enqueue claim_due ack
call-visibility_timeout (enqueuing msg) q = refl
call-visibility_timeout (claiming topic now limit) q = ground arith
call-visibility_timeout (acking topic id) q = refl

pub maps_of-call :
    (topic : String) (c : Call) (q : MemoryQueue)
    → maps_of topic (call c q) ≡ topic_call topic q.visibility_timeout c (maps_of topic q)
unfolding maps_of call topic_call enqueue claim_due ack
maps_of-call topic (enqueuing msg) q =
    let ready =
      topic_of-insert msg.topic topic (insert msg.id msg (topic_of msg.topic q.messages))
        q.messages in
    let claims = topic_of-forget msg.topic topic msg.id q.processing in
    elim (Bool-cases (msg.topic == topic)) [
      | inl hit ↦
          let from : topic_of msg.topic q.messages ≡ topic_of topic q.messages =
            ap (λ (u : String). topic_of u q.messages)
              ((string_eq.beq_iff msg.topic topic).0 hit) in
          ground (arith, hit, ready, claims, from)
      | inr miss ↦ ground (arith, miss, ready, claims)
    ]
maps_of-call topic (claiming at now limit) q =
    let maps : TopicMaps = (topic_of at q.messages, topic_of at q.processing) in
    let maps' = claim_topic now q.visibility_timeout limit maps in
    let ready = topic_of-insert at topic maps'.1.0 q.messages in
    let claims = topic_of-insert at topic maps'.1.1 q.processing in
    elim (Bool-cases (at == topic)) [
      | inl hit ↦
          let same = (string_eq.beq_iff at topic).0 hit in
          let from : maps ≡ maps_of topic q = ap (λ (u : String). maps_of u q) same in
          ground (arith, hit, ready, claims, from)
      | inr miss ↦ ground (arith, miss, ready, claims)
    ]
maps_of-call topic (acking at id) q =
    let ready = topic_of-forget at topic id q.messages in
    let claims = topic_of-forget at topic id q.processing in ground (arith, ready, claims)

pub run-visibility_timeout :
    (cs : List Call) (q : MemoryQueue) → (run cs q).visibility_timeout ≡ q.visibility_timeout
unfolding run
run-visibility_timeout [] q = refl
run-visibility_timeout (c ∷ cs) q =
    run-visibility_timeout cs (call c q) ∙ call-visibility_timeout c q

-- However the calls are mixed, each topic of the queue goes through the states of a queue of its own,
-- which only the calls with that topic change.
pub maps_of-run :
    (topic : String) (cs : List Call) (q : MemoryQueue)
    → maps_of topic (run cs q) ≡ topic_run topic q.visibility_timeout cs (maps_of topic q)
unfolding run topic_run
maps_of-run topic [] q = refl
maps_of-run topic (c ∷ cs) q =
    let rest = maps_of-run topic cs (call c q) in
    let one = maps_of-call topic c q in
    let long = call-visibility_timeout c q in
    rest
    ∙ ap (λ t. topic_run topic t cs (maps_of topic (call c q))) long
    ∙ ap (topic_run topic q.visibility_timeout cs) one

-- A property of a topic's maps that every call keeps holds after all of them.
pub topic_run-keeps :
    (P : TopicMaps → Type 0) (Q : Call → Type 0) (topic : String) (timeout : ℤ)
    → ((c : Call) (maps : TopicMaps) → Q c → P maps → P (topic_call topic timeout c maps))
    → (cs : List Call) (maps : TopicMaps) → All Q cs
    → P maps
    → P (topic_run topic timeout cs maps)
unfolding topic_run
topic_run-keeps P Q topic timeout step [] maps h p = p
topic_run-keeps P Q topic timeout step (c ∷ cs) maps (h, hs) p =
    topic_run-keeps P Q topic timeout step cs (topic_call topic timeout c maps) hs (step c maps h p)
