-- ===== src/DelayQueue/Given.antt =====
-- Messages that `ClaimDue` of the queue in memory gives: none again while its claim lasts, and
-- every one that is due.
use ticket_hub.Common.{
  ◌+◌, ℤ, pos, String, ◌≡◌, ◌≢◌, sym, subst, ◌⊎◌, inl, inr, true, false, not, ◌&&◌, some, List, map,
  arith, Bool-cases, ◌==◌, nat_eq, string_eq, int_eq, length, All, Mem, All-Mem, ◌+ℤ◌, ◌≤ℤ◌, ◌<ℤ◌,
  leb_ℤ,
}
use ticket_hub.Common.Dict.{lookup, lookup-insert, lookup-erase, lookup-Mem, All-lookup, All-erase}
use ticket_hub.DelayQueue.{Message, MemoryClaim, TopicMaps, MemoryQueue, restore, claim_topic}
use ticket_hub.DelayQueue.Operations.{
  Call, enqueuing, claiming, acking, call, run, maps_of, topic_call, maps_of-run, maps_of-call,
  topic_run-keeps, call-visibility_timeout,
}
use ticket_hub.DelayQueue.Invariant.{IsQueue, topic_call-IsTopic}
use ticket_hub.DelayQueue.Topic.{IsKept, IsTopic}
use ticket_hub.DelayQueue.Hidden.{
  IsHidden, claim_topic-other, claim_topic-IsHidden, claim_topic-hides,
}
use ticket_hub.DelayQueue.Due.{IsDue, restore-IsDue, claim_over-IsDue, claim_topic-due}
use ticket_hub.DelayQueue.Delivery.{claimed, claimed-claim_topic}

-- The call neither enqueues the message anew nor claims in its topic at the time `until` or later.
abbrev pub IsQuiet : String → String → ℤ → Call → Type 0
IsQuiet topic key until (enqueuing msg) = (msg.topic == topic && msg.id == key) ≡ false
IsQuiet topic key until (claiming at now limit) = at ≡ topic → now <ℤ until
IsQuiet topic key until (acking at id) = Unit

topic_call-IsHidden :
    (topic key : String) (until timeout : ℤ) (c : Call) (maps : TopicMaps)
    → IsQuiet topic key until c
    → IsTopic topic maps × IsHidden key until maps
    → IsHidden key until (topic_call topic timeout c maps)
unfolding topic_call
topic_call-IsHidden topic key until timeout (enqueuing msg) (ready, claims) quiet (w, (free, h)) =
    elim (Bool-cases (msg.topic == topic)) [
      | inl here ↦ rw here (
        ground (arith, here, quiet, free, lookup-insert msg.id key msg ready),
        All-erase (λ (e : String × MemoryClaim). e.0 ≡ key → e.1.visible_at ≡ until) msg.id claims
            h,
      )
      | inr elsewhere ↦ rw elsewhere (free, h)
    ]
topic_call-IsHidden topic key until timeout (claiming at now limit) maps quiet (w, h) =
    elim (Bool-cases (at == topic && not (leb_ℤ limit (pos 0)))) [
      | inl here ↦
          let same : at ≡ topic = (string_eq.beq_iff at topic).0 (ground (arith, here)) in
          rw here (claim_topic-IsHidden topic key until now timeout limit maps (quiet same) w h)
      | inr idle ↦ rw idle h
    ]
topic_call-IsHidden topic key until timeout (acking at id) (ready, claims) quiet (w, (free, h)) =
    elim (Bool-cases (at == topic)) [
      | inl here ↦ rw here (
        ground (arith, free, lookup-erase id key ready),
        All-erase (λ (e : String × MemoryClaim). e.0 ≡ key → e.1.visible_at ≡ until) id claims h,
      )
      | inr elsewhere ↦ rw elsewhere (free, h)
    ]

pub topic_claim :
    (topic : String) (now timeout limit : ℤ) (maps : TopicMaps)
    → (topic == topic && not (leb_ℤ limit (pos 0))) ≡ true
    → (P : TopicMaps → Type 0) → P (claim_topic now timeout limit maps).1
    → P (topic_call topic timeout (claiming topic now limit) maps)
unfolding topic_call
topic_claim topic now timeout limit maps here P h = rw here h

claimed-hides :
    (topic : String) (now limit : ℤ) (q : MemoryQueue)
    → IsQueue q
    → (given : Message) → Mem given (claimed topic now limit q)
    → IsHidden given.id
        (now +ℤ q.visibility_timeout)
        (maps_of topic (call (claiming topic now limit) q))
claimed-hides topic now limit q (long, w) given m =
    let m' = subst (Mem given) (claimed-claim_topic topic now limit q) m in
    subst (IsHidden given.id (now +ℤ q.visibility_timeout))
      (sym (maps_of-call topic (claiming topic now limit) q))
      (elim (Bool-cases (leb_ℤ limit (pos 0))) [
        | inl idle ↦ absurd (rw idle at m')
        | inr some_room ↦
            let here : (topic == topic && not (leb_ℤ limit (pos 0))) ≡ true =
              ground (arith, some_room, string_eq.beq_iff topic topic) in
            topic_claim topic now q.visibility_timeout limit (maps_of topic q) here
              (λ (maps : TopicMaps). IsHidden given.id (now +ℤ q.visibility_timeout) maps)
              (All-Mem
                (λ (msg : Message).
                  IsHidden msg.id (now +ℤ q.visibility_timeout)
                    (claim_topic now q.visibility_timeout limit (maps_of topic q)).1)
                given (claim_topic now q.visibility_timeout limit (maps_of topic q)).0
                (claim_topic-hides topic now q.visibility_timeout limit (maps_of topic q) (w topic))
                (rw some_room at m'))
      ])

claimed-other :
    (topic key : String) (until later limit : ℤ) (q : MemoryQueue)
    → later <ℤ until
    → IsTopic topic (maps_of topic q) × IsHidden key until (maps_of topic q)
    → All (λ (m : Message). m.id ≢ key) (claimed topic later limit q)
claimed-other topic key until later limit q early (w, h) =
    subst (All (λ (m : Message). m.id ≢ key)) (sym (claimed-claim_topic topic later limit q))
      (elim (Bool-cases (leb_ℤ limit (pos 0))) [
        | inl idle ↦ rw idle tt
        | inr some_room ↦ rw some_room (
            claim_topic-other topic key until later q.visibility_timeout limit (maps_of topic q)
              early w h)
      ])

-- A message that `ClaimDue` gave is not given again by a claim in its topic at a time before the
-- first claim ends, where the calls between the two do not enqueue it anew and claim in its topic
-- at earlier times than that end only.
pub given_once :
    (topic : String) (now limit later limit' : ℤ) (q : MemoryQueue) (cs : List Call)
    → IsQueue q
    → (given : Message) → Mem given (claimed topic now limit q)
    → All (IsQuiet topic given.id (now +ℤ q.visibility_timeout)) cs
    → later <ℤ now +ℤ q.visibility_timeout
    → All
        (λ (m : Message). m.id ≢ given.id)
        (claimed topic later limit' (run cs (call (claiming topic now limit) q)))
given_once topic now limit later limit' q cs (long, w) given m quiet early =
    let timeout = q.visibility_timeout in
    let until = now +ℤ timeout in
    let q' = call (claiming topic now limit) q in
    let IsQuietly : TopicMaps → Type 0 =
      λ maps. IsTopic topic maps × IsHidden given.id until maps in
    let first : IsQuietly (maps_of topic q') = (
      subst (IsTopic topic) (sym (maps_of-call topic (claiming topic now limit) q)) (
          topic_call-IsTopic topic timeout long (claiming topic now limit) (maps_of topic q)
            (w topic)),
      claimed-hides topic now limit q (long, w) given m,
    ) in
    let same : q'.visibility_timeout ≡ timeout =
      call-visibility_timeout (claiming topic now limit) q in
    let last : IsQuietly (maps_of topic (run cs q')) =
      subst IsQuietly (sym (maps_of-run topic cs q')) (
        topic_run-keeps IsQuietly (IsQuiet topic given.id until) topic q'.visibility_timeout
          (λ c. λ maps. λ silent. λ k. (
            topic_call-IsTopic topic q'.visibility_timeout
                (subst (λ (t : ℤ). pos 0 ≤ℤ t) (sym same) long) c maps k.0,
            topic_call-IsHidden topic given.id until q'.visibility_timeout c maps silent k,
          ))
          cs (maps_of topic q') quiet first) in
    claimed-other topic given.id until later limit' (run cs q') early last

-- A message that is due is given by `ClaimDue` of a well-formed queue with a limit that is positive
-- and not less than the number of messages of the topic: one that waits with a time that has come,
-- and one whose claim has run out.
pub due_is_given :
    (topic key : String) (now limit : ℤ) (q : MemoryQueue)
    → IsQueue q
    → pos 0 <ℤ limit
    → pos (length (maps_of topic q).0 + length (maps_of topic q).1) ≤ℤ limit
    → ((msg : Message) × (lookup key (maps_of topic q).0 ≡ some msg) × (msg.available_at ≤ℤ now))
      ⊎ ((claim : MemoryClaim) × (lookup key (maps_of topic q).1 ≡ some claim)
          × (claim.visible_at ≤ℤ now))
    → Mem key (map (λ (m : Message). m.id) (claimed topic now limit q))
due_is_given topic key now limit q (long, w) some_limit room due =
    let maps = maps_of topic q in
    let w' : IsTopic topic maps = w topic in
    let ready : IsDue key now (restore now maps.1 maps).0 = elim due [
      | inl (msg, found, past) ↦
          let own = All-lookup (IsKept topic) key maps.0 w'.0.0 found in
          restore-IsDue topic key now maps.1 maps w'.1.0 (msg, found, own.0, past)
      | inr (claim, found, over) ↦
          claim_over-IsDue topic key now claim maps.1 maps w'.1.0 (lookup-Mem key maps.1 found) over
    ] in
    let given = claim_topic-due key now q.visibility_timeout limit maps room ready in
    subst (λ (ms : List Message). Mem key (map (λ (m : Message). m.id) ms))
      (sym (claimed-claim_topic topic now limit q))
      (elim (Bool-cases (leb_ℤ limit (pos 0))) [
        | inr some_room ↦ rw some_room given
        | inl idle ↦ absurd (ground (arith, idle, some_limit))
      ])
