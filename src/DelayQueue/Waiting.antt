-- ===== src/DelayQueue/Waiting.antt =====
-- A message that waits in the queue in memory waits, as it is, until it is due, and is then given.
use ticket_hub.Common.{
  ◌+◌, ℤ, pos, String, ◌≡◌, ◌≢◌, sym, ap, subst, ◌∙◌, inl, inr, false, not, ◌&&◌, none, some, List,
  [], ◌∷◌, arith, Bool-cases, ◌==◌, nat_eq, string_eq, int_eq, ==_refl, ==_ne, length, All, Mem,
  map-Mem, ◌+ℤ◌, ◌≤ℤ◌, ◌<ℤ◌, ltb_ℤ, leb_ℤ,
}
use ticket_hub.Common.Dict.{lookup, lookup-insert, lookup-erase}
use ticket_hub.Common.Sort.{sort_by-Mem}
use ticket_hub.DelayQueue.{
  Message, MemoryClaim, Ready, Claims, TopicMaps, MemoryQueue, restore, due_of, comes_before,
  attempted, selected, hand_out, claim_topic,
}
use ticket_hub.DelayQueue.Operations.{
  Call, enqueuing, claiming, acking, call, run, maps_of, topic_call, maps_of-run, maps_of-call,
  topic_run-keeps,
}
use ticket_hub.DelayQueue.Invariant.{IsQueue, topic_call-IsTopic}
use ticket_hub.DelayQueue.Topic.{IsKept, IsTopic, restore-IsTopic, selected-All}
use ticket_hub.DelayQueue.Delivery.{claimed, claimed-claim_topic}
use ticket_hub.DelayQueue.{restore_claim, claim_message}
use ticket_hub.DelayQueue.Hidden.{due_of-other}
use ticket_hub.DelayQueue.Due.{selected_all, length-restore, due_of-Mem}
use ticket_hub.Common.Dict.{IsDistinct, lookup-none}

-- The message waits under the id, which no claim has.
abbrev pub IsWaiting : String → Message → TopicMaps → Type 0
IsWaiting key msg maps = (lookup key maps.0 ≡ some msg) × (lookup key maps.1 ≡ none)

restore_claim-IsWaiting :
    (key : String) (msg : Message) (now : ℤ) (id : String) (claim : MemoryClaim) (maps : TopicMaps)
    → (id ≡ key → ⊥)
    → IsWaiting key msg maps
    → IsWaiting key msg (restore_claim now id claim maps)
unfolding restore_claim
restore_claim-IsWaiting key msg now id claim (ready, claims) other (here, free) =
    let miss = ==_ne id key other in
    ground (
      arith,
      here,
      free,
      miss,
      lookup-insert id key claim.message ready,
      lookup-erase id key claims,
    )

restore-IsWaiting :
    (key : String) (msg : Message) (now : ℤ) (entries : Claims) (maps : TopicMaps)
    → All (λ (e : String × MemoryClaim). e.0 ≡ key → ⊥) entries
    → IsWaiting key msg maps
    → IsWaiting key msg (restore now entries maps)
unfolding restore
restore-IsWaiting key msg now [] maps others h = h
restore-IsWaiting key msg now ((id, claim) ∷ entries) maps (other, others) h =
    restore-IsWaiting key msg now entries (restore_claim now id claim maps) others
      (restore_claim-IsWaiting key msg now id claim maps other h)

-- Before its time nothing due has the id of the message.
due_of-early :
    (topic key : String) (msg : Message) (now : ℤ) (ready : Ready)
    → All (IsKept topic) ready
    → IsDistinct ready
    → lookup key ready ≡ some msg
    → now <ℤ msg.available_at
    → All (λ (m : Message). m.id ≢ key) (due_of now ready)
unfolding due_of lookup
due_of-early topic key msg now [] r d found early = absurd (ground (arith, found))
due_of-early topic key msg now ((id, first) ∷ ready) ((same, t), r) (fresh, d) found early =
    elim (Bool-cases (id == key)) [
      | inl hit ↦
          let one : first ≡ msg = ground (arith, hit, found) in
          let free =
            subst (λ (k : String). lookup k ready ≡ none) ((string_eq.beq_iff id key).0 hit)
              fresh in
          let not_due : not (ltb_ℤ now first.available_at) ≡ false =
            ground (arith, early, ap (λ (m : Message). m.available_at) one) in
          rw not_due (due_of-other topic key now ready r free)
      | inr miss ↦
          let other : first.id ≢ key =
            λ e. absurd (ground (arith, miss, (string_eq.beq_iff id key).1 (sym same ∙ e))) in
          let rest = due_of-early topic key msg now ready r d (ground (arith, miss, found)) early in
          elim (Bool-cases (not (ltb_ℤ now first.available_at))) [
            | inl due ↦ rw due (other, rest)
            | inr later ↦ rw later rest
          ]
    ]

claim_message-IsWaiting :
    (key : String) (msg : Message) (visible_at : ℤ) (m : Message) (maps : TopicMaps)
    → m.id ≢ key
    → IsWaiting key msg maps
    → IsWaiting key msg (claim_message visible_at m maps)
unfolding claim_message
claim_message-IsWaiting key msg visible_at m (ready, claims) other (here, free) =
    let miss = ==_ne m.id key other in
    let claim : MemoryClaim = record { message = attempted m; visible_at = visible_at } in
    ground
      (arith, here, free, miss, lookup-insert m.id key claim claims, lookup-erase m.id key ready)

hand_out-IsWaiting :
    (key : String) (msg : Message) (visible_at : ℤ) (due : List Message) (maps : TopicMaps)
    → All (λ (m : Message). m.id ≢ key) due
    → IsWaiting key msg maps
    → IsWaiting key msg (hand_out visible_at due maps)
unfolding hand_out
hand_out-IsWaiting key msg visible_at [] maps others h = h
hand_out-IsWaiting key msg visible_at (m ∷ due) maps (other, others) h =
    hand_out-IsWaiting key msg visible_at due (claim_message visible_at m maps) others
      (claim_message-IsWaiting key msg visible_at m maps other h)

module _ (topic key : String) (msg : Message) (now timeout limit : ℤ) (maps : TopicMaps)
    (w : IsTopic topic maps) (h : IsWaiting key msg maps) where
  restored_waits : IsWaiting key msg (restore now maps.1 maps)
  restored_waits = restore-IsWaiting key msg now maps.1 maps (lookup-none (λ e. ⊥) key maps.1 h.1) h

  -- A claim before its time leaves the message waiting.
  claim_topic-IsWaiting :
      now <ℤ msg.available_at → IsWaiting key msg (claim_topic now timeout limit maps).1
  unfolding claim_topic
  claim_topic-IsWaiting early =
      let maps' : TopicMaps = restore now maps.1 maps in
      let w' : IsTopic topic maps' = restore-IsTopic topic now maps.1 maps w.1.0 w in
      hand_out-IsWaiting key msg (now +ℤ timeout) (selected now limit maps'.0) maps'
        (selected-All topic (λ (m : Message). m.id ≢ key) now limit maps'.0
          (due_of-early topic key msg now maps'.0 w'.0.0 w'.0.1 restored_waits.0 early))
        restored_waits

  -- A claim at its time or later, with room for the whole topic, gives the message.
  claim_topic-gives :
      msg.available_at ≤ℤ now
      → pos (length maps.0 + length maps.1) ≤ℤ limit
      → Mem (attempted msg) (claim_topic now timeout limit maps).0
  unfolding claim_topic
  claim_topic-gives due room =
      let maps' : TopicMaps = restore now maps.1 maps in
      let fits : pos (length maps'.0) ≤ℤ limit =
        ground (arith, room, length-restore now maps.1 maps) in
      let chosen : Mem msg (selected now limit maps'.0) =
        subst (Mem msg) (sym (selected_all now limit maps'.0 fits)) (
          sort_by-Mem comes_before msg (due_of now maps'.0)
            (due_of-Mem now key msg maps'.0 restored_waits.0 due)) in
      map-Mem attempted msg (selected now limit maps'.0) chosen

-- The call does not touch the id, and claims in the topic before the time `until` only.
abbrev pub IsAside : String → String → ℤ → Call → Type 0
IsAside topic key until (enqueuing msg) = (msg.topic == topic && msg.id == key) ≡ false
IsAside topic key until (claiming at now limit) = at ≡ topic → now <ℤ until
IsAside topic key until (acking at id) = (at == topic && id == key) ≡ false

topic_call-IsWaiting :
    (topic key : String) (msg : Message) (timeout : ℤ) (c : Call) (maps : TopicMaps)
    → IsAside topic key msg.available_at c
    → IsTopic topic maps × IsWaiting key msg maps
    → IsWaiting key msg (topic_call topic timeout c maps)
unfolding topic_call
topic_call-IsWaiting topic key msg timeout (enqueuing m) (ready, claims) aside (w, (here, free)) =
    ground (arith, aside, here, free, lookup-insert m.id key m ready, lookup-erase m.id key claims)
topic_call-IsWaiting topic key msg timeout (claiming at now limit) maps aside (w, h) =
    elim (Bool-cases (at == topic && not (leb_ℤ limit (pos 0)))) [
      | inl here ↦
          let same : at ≡ topic = (string_eq.beq_iff at topic).0 (ground (arith, here)) in
          rw here (claim_topic-IsWaiting topic key msg now timeout limit maps w h (aside same))
      | inr idle ↦ rw idle h
    ]
topic_call-IsWaiting topic key msg timeout (acking at id) (ready, claims) aside (w, (here, free)) =
    ground (arith, aside, here, free, lookup-erase id key ready, lookup-erase id key claims)

-- Over calls that do not touch it, a message waits until its time.
pub run-IsWaiting :
    (topic key : String) (msg : Message) (cs : List Call) (q : MemoryQueue)
    → IsQueue q
    → All (IsAside topic key msg.available_at) cs
    → IsWaiting key msg (maps_of topic q)
    → IsWaiting key msg (maps_of topic (run cs q))
run-IsWaiting topic key msg cs q (long, w) aside waits =
    let Holds : TopicMaps → Type 0 = λ maps. IsTopic topic maps × IsWaiting key msg maps in
    subst (IsWaiting key msg) (sym (maps_of-run topic cs q))
      (topic_run-keeps Holds (IsAside topic key msg.available_at) topic q.visibility_timeout
        (λ c maps silent k. (
          topic_call-IsTopic topic q.visibility_timeout long c maps k.0,
          topic_call-IsWaiting topic key msg q.visibility_timeout c maps silent k,
        ))
        cs (maps_of topic q) aside (w topic, waits)).1

-- A waiting message whose time has come is given by a claim with room for the whole topic.
pub waiting_is_given :
    (topic key : String) (msg : Message) (now limit : ℤ) (q : MemoryQueue)
    → IsQueue q
    → pos 0 <ℤ limit
    → pos (length (maps_of topic q).0 + length (maps_of topic q).1) ≤ℤ limit
    → IsWaiting key msg (maps_of topic q)
    → msg.available_at ≤ℤ now
    → Mem (attempted msg) (claimed topic now limit q)
waiting_is_given topic key msg now limit q (long, w) some_limit room waits due =
    subst (Mem (attempted msg)) (sym (claimed-claim_topic topic now limit q))
      (elim (Bool-cases (leb_ℤ limit (pos 0))) [
        | inr some_room ↦ rw some_room (
            claim_topic-gives topic key msg now q.visibility_timeout limit (maps_of topic q)
              (w topic) waits due room)
        | inl idle ↦ absurd (ground (arith, idle, some_limit))
      ])

enqueued-IsWaiting :
    (msg : Message) (timeout : ℤ) (maps : TopicMaps)
    → IsWaiting msg.id msg (topic_call msg.topic timeout (enqueuing msg) maps)
unfolding topic_call
enqueued-IsWaiting msg timeout (ready, claims) = ground (
  arith,
  ==_refl msg.topic,
  ==_refl msg.id,
  lookup-insert msg.id msg.id msg ready,
  lookup-erase msg.id msg.id claims,
)

-- What was enqueued waits.
pub enqueue-IsWaiting :
    (msg : Message) (q : MemoryQueue)
    → IsWaiting msg.id msg (maps_of msg.topic (call (enqueuing msg) q))
enqueue-IsWaiting msg q =
    subst (IsWaiting msg.id msg) (sym (maps_of-call msg.topic (enqueuing msg) q))
      (enqueued-IsWaiting msg q.visibility_timeout (maps_of msg.topic q))
