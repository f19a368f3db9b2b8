-- ===== src/DelayQueue/Delivery.antt =====
-- What the queue in memory promises of its messages: none is lost before it is acknowledged, none is
-- handed out twice while its claim lasts, and every one that is due is handed out.
use ticket_hub.Common.{
  suc, ℤ, pos, String, ◌≡◌, refl, sym, ap, subst, inl, inr, true, false, not, ◌&&◌, List, [], ◌∷◌,
  map, arith, if◌then◌else◌, Bool-cases, ◌==◌, nat_eq, string_eq, int_eq, length, length-take, All,
  All-map, pos_part, ◌≤ℤ◌, ltb_ℤ, leb_ℤ, eqb_ℤ_iff,
}
use ticket_hub.Errors.{ok}
use ticket_hub.Common.Dict.{lookup-insert, lookup-erase}
use ticket_hub.Common.Sort.{text_ltb_asymm, sort_by, IsOrdered, sort_by-IsOrdered, take-IsOrdered}
use ticket_hub.DelayQueue.{
  Message, Ready, TopicMaps, MemoryQueue, restore, due_of, comes_before, attempted, selected,
  claim_topic, claim_due,
}
use ticket_hub.DelayQueue.Operations.{
  Call, enqueuing, claiming, acking, run, maps_of, topic_call, maps_of-run, topic_run-keeps,
}
use ticket_hub.DelayQueue.Invariant.{IsQueue}
use ticket_hub.DelayQueue.Topic.{
  IsTopic, is_some, is_held, claim_topic-is_held, restore-IsTopic, selected-All, due_of-All,
}

-- The call does not acknowledge the message.
abbrev pub IsNotAck : String → String → Call → Type 0
IsNotAck topic key (acking at id) = (at == topic && id == key) ≡ false
IsNotAck topic key (enqueuing msg) = Unit
IsNotAck topic key (claiming at now limit) = Unit

topic_call-is_held :
    (topic key : String) (timeout : ℤ) (c : Call) (maps : TopicMaps)
    → IsNotAck topic key c
    → is_held key maps ≡ true
    → is_held key (topic_call topic timeout c maps) ≡ true
unfolding topic_call is_held is_some
topic_call-is_held topic key timeout (enqueuing msg) (ready, claims) other held =
    ground (arith, lookup-insert msg.id key msg ready, lookup-erase msg.id key claims)
topic_call-is_held topic key timeout (claiming at now limit) maps other held =
    let kept = claim_topic-is_held now timeout limit key maps held in
    elim (Bool-cases (at == topic && not (leb_ℤ limit (pos 0)))) [
      | inl here ↦ rw here kept
      | inr idle ↦ rw idle held
    ]
topic_call-is_held topic key timeout (acking at id) (ready, claims) other held =
    ground (arith, other, lookup-erase id key ready, lookup-erase id key claims)

-- A message that the queue holds, waiting or claimed, is still held after any calls that do not
-- acknowledge it.
pub held_until_acked :
    (topic key : String) (cs : List Call) (q : MemoryQueue)
    → All (IsNotAck topic key) cs
    → is_held key (maps_of topic q) ≡ true
    → is_held key (maps_of topic (run cs q)) ≡ true
held_until_acked topic key cs q others held =
    subst (λ (m : TopicMaps). is_held key m ≡ true) (sym (maps_of-run topic cs q))
      (topic_run-keeps (λ (m : TopicMaps). is_held key m ≡ true) (IsNotAck topic key) topic
        q.visibility_timeout (topic_call-is_held topic key q.visibility_timeout) cs
        (maps_of topic q) others held)

-- What `ClaimDue` gives.
abbrev pub claimed : String → ℤ → ℤ → MemoryQueue → List Message
claimed topic now limit q = elim (claim_due topic now limit q).0 [ ok due ↦ due | _ ↦ [] ]

-- `ClaimDue` does not fail.
pub claim_due-claimed :
    (topic : String) (now limit : ℤ) (q : MemoryQueue)
    → (claim_due topic now limit q).0 ≡ ok (claimed topic now limit q)
unfolding claim_due
claim_due-claimed topic now limit q = ground arith

comes_before_asymm : (a b : Message) → comes_before a b ≡ true → comes_before b a ≡ false
unfolding comes_before
comes_before_asymm a b h = ground (
  arith,
  eqb_ℤ_iff a.available_at b.available_at,
  eqb_ℤ_iff b.available_at a.available_at,
  text_ltb_asymm a.id b.id,
)

selected-IsOrdered :
    (now limit : ℤ) (ready : Ready) → IsOrdered comes_before (selected now limit ready)
unfolding selected
selected-IsOrdered now limit ready =
    let sorted = sort_by-IsOrdered comes_before comes_before_asymm (due_of now ready) in
    elim (Bool-cases (ltb_ℤ limit (pos (length (sort_by comes_before (due_of now ready)))))) [
      | inl more ↦ rw more (
          take-IsOrdered comes_before (pos_part limit) (sort_by comes_before (due_of now ready))
            sorted)
      | inr all ↦ rw all sorted
    ]

length-selected :
    (now limit : ℤ) (ready : Ready)
    → leb_ℤ limit (pos 0) ≡ false
    → pos (length (selected now limit ready)) ≤ℤ limit
unfolding selected
length-selected now limit ready some_room =
    ground
      (arith, some_room, length-take (pos_part limit) (sort_by comes_before (due_of now ready)))

pub claimed-claim_topic :
    (topic : String) (now limit : ℤ) (q : MemoryQueue)
    → claimed topic now limit q ≡ (
        if leb_ℤ limit (pos 0)
        then []
        else (claim_topic now q.visibility_timeout limit (maps_of topic q)).0)
unfolding claim_due maps_of
claimed-claim_topic topic now limit q = ground arith

attempted-IsOrdered :
    (ms : List Message) → IsOrdered comes_before ms → IsOrdered comes_before (map attempted ms)
unfolding comes_before
attempted-IsOrdered [] h = tt
attempted-IsOrdered (a ∷ []) h = tt
attempted-IsOrdered (a ∷ b ∷ ms) (first, h) = (first, attempted-IsOrdered (b ∷ ms) h)

length-map : {A B : Type 0} (f : A → B) (xs : List A) → length (map f xs) ≡ length xs
length-map f [] = refl
length-map f (x ∷ xs) = ap suc (length-map f xs)

-- A list of messages as `ClaimDue` gives it.
abbrev pub IsClaim : String → ℤ → ℤ → List Message → Type 0
IsClaim topic now limit ms =
    All (λ (m : Message). (m.available_at ≤ℤ now) × (m.topic ≡ topic)) ms
    × IsOrdered comes_before ms
    × (pos (length ms) ≤ℤ limit)

claim_topic-IsClaim :
    (topic : String) (now timeout limit : ℤ) (maps : TopicMaps)
    → IsTopic topic maps
    → leb_ℤ limit (pos 0) ≡ false
    → IsClaim topic now limit (claim_topic now timeout limit maps).0
unfolding claim_topic
claim_topic-IsClaim topic now timeout limit maps w some_room =
    let maps' : TopicMaps = restore now maps.1 maps in
    let w' : IsTopic topic maps' = restore-IsTopic topic now maps.1 maps w.1.0 w in
    let due = selected now limit maps'.0 in
    (
      All-map attempted (λ (m : Message). (m.available_at ≤ℤ now) × (m.topic ≡ topic)) due
          (selected-All topic (λ (m : Message). (m.available_at ≤ℤ now) × (m.topic ≡ topic)) now
            limit maps'.0 (due_of-All topic now maps'.0 w'.0.0)),
      attempted-IsOrdered due (selected-IsOrdered now limit maps'.0),
      ground (arith, length-map attempted due, length-selected now limit maps'.0 some_room),
    )

-- `ClaimDue` on a well-formed queue, with a limit that is not negative, answers with messages of its
-- topic that are due, in the order of their times, and of their ids where the times agree, and at
-- most `limit` of them.
pub claimed_in_order :
    (topic : String) (now limit : ℤ) (q : MemoryQueue)
    → IsQueue q
    → pos 0 ≤ℤ limit
    → IsClaim topic now limit (claimed topic now limit q)
claimed_in_order topic now limit q (long, w) some_limit =
    subst (IsClaim topic now limit) (sym (claimed-claim_topic topic now limit q))
      (elim (Bool-cases (leb_ℤ limit (pos 0))) [
        | inl idle ↦ rw idle (tt, tt, some_limit)
        | inr some_room ↦ rw some_room (
            claim_topic-IsClaim topic now q.visibility_timeout limit (maps_of topic q) (w topic)
              some_room)
      ])
