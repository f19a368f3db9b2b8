-- ===== src/DelayQueue/Hidden.antt =====
-- A claimed message that is not visible yet is not handed out again.
use ticket_hub.Common.{
  ℤ, String, ◌≡◌, ◌≢◌, refl, sym, ◌∙◌, inl, inr, false, not, none, List, [], ◌∷◌, arith, Bool-cases,
  ◌==◌, nat_eq, string_eq, int_eq, All, All-imp, All-map, ◌+ℤ◌, ◌<ℤ◌, ltb_ℤ,
}
use ticket_hub.Common.Dict.{
  lookup, insert, erase, lookup-insert, lookup-erase, All-insert, All-erase, IsDistinct,
  insert-IsDistinct, insert-only,
}
use ticket_hub.DelayQueue.{
  Message, MemoryClaim, Ready, Claims, TopicMaps, restore_claim, restore, due_of, attempted,
  claim_message, hand_out, selected, claim_topic,
}
use ticket_hub.DelayQueue.Topic.{IsKept, IsTopic, restore-IsTopic, selected-All}

-- The id does not wait, and its claim ends at the time `until`.
abbrev pub IsHidden : String → ℤ → TopicMaps → Type 0
IsHidden key until maps =
    (lookup key maps.0 ≡ none)
    × All (λ (e : String × MemoryClaim). e.0 ≡ key → e.1.visible_at ≡ until) maps.1

claim_message-IsHidden :
    (key : String) (until visible_at : ℤ) (msg : Message) (maps : TopicMaps)
    → (msg.id ≡ key → visible_at ≡ until)
    → IsHidden key until maps
    → IsHidden key until (claim_message visible_at msg maps)
unfolding claim_message
claim_message-IsHidden key until visible_at msg (ready, claims) at (free, c) = (
  ground (arith, lookup-erase msg.id key ready),
  All-insert (λ (e : String × MemoryClaim). e.0 ≡ key → e.1.visible_at ≡ until) msg.id
      (record { message = attempted msg; visible_at = visible_at }) claims at c,
)

claim_message-hides :
    (until : ℤ) (msg : Message) (maps : TopicMaps)
    → IsDistinct maps.1
    → IsHidden msg.id until (claim_message until msg maps)
unfolding claim_message
claim_message-hides until msg (ready, claims) distinct = (
  ground (arith, lookup-erase msg.id msg.id ready, string_eq.beq_iff msg.id msg.id),
  insert-only (λ (e : String × MemoryClaim). e.1.visible_at ≡ until) msg.id
      (record { message = attempted msg; visible_at = until }) claims refl distinct,
)

hand_out-IsHidden :
    (key : String) (until visible_at : ℤ) (due : List Message) (maps : TopicMaps)
    → All (λ (msg : Message). msg.id ≡ key → visible_at ≡ until) due
    → IsHidden key until maps
    → IsHidden key until (hand_out visible_at due maps)
unfolding hand_out
hand_out-IsHidden key until visible_at [] maps a h = h
hand_out-IsHidden key until visible_at (msg ∷ due) maps (at, a) h =
    hand_out-IsHidden key until visible_at due (claim_message visible_at msg maps) a
      (claim_message-IsHidden key until visible_at msg maps at h)

same_everywhere :
    (until : ℤ) (key : String) (due : List Message)
    → All (λ (msg : Message). msg.id ≡ key → until ≡ until) due
same_everywhere until key [] = tt
same_everywhere until key (msg ∷ due) = (λ same. refl, same_everywhere until key due)

-- Every message that is handed out is hidden afterwards.
pub hand_out-hides :
    (until : ℤ) (due : List Message) (maps : TopicMaps)
    → IsDistinct maps.1
    → All (λ (msg : Message). IsHidden msg.id until (hand_out until due maps)) due
unfolding hand_out claim_message
hand_out-hides until [] maps distinct = tt
hand_out-hides until (msg ∷ due) (ready, claims) distinct =
    let claim : MemoryClaim = record { message = attempted msg; visible_at = until } in
    let maps' : TopicMaps = (erase msg.id ready, insert msg.id claim claims) in
    (
      hand_out-IsHidden msg.id until until due maps' (same_everywhere until msg.id due)
          (claim_message-hides until msg (ready, claims) distinct),
      hand_out-hides until due maps' (insert-IsDistinct msg.id claim claims distinct),
    )

restore_claim-IsHidden :
    (key : String) (until now : ℤ) (id : String) (claim : MemoryClaim) (maps : TopicMaps)
    → now <ℤ until
    → (id ≡ key → claim.visible_at ≡ until)
    → IsHidden key until maps
    → IsHidden key until (restore_claim now id claim maps)
unfolding restore_claim
restore_claim-IsHidden key until now id claim (ready, claims) early at (free, c) =
    elim (Bool-cases (not (ltb_ℤ now claim.visible_at))) [
      | inr still ↦ rw still (free, c)
      | inl over ↦
          let other : (id == key) ≡ false = elim (Bool-cases (id == key)) [
            | inr miss ↦ miss
            | inl hit ↦
                let end : claim.visible_at ≡ until = at ((string_eq.beq_iff id key).0 hit) in
                absurd (ground (arith, over, early, end))
          ] in
          rw over (
            ground (arith, other, lookup-insert id key claim.message ready),
            All-erase (λ (e : String × MemoryClaim). e.0 ≡ key → e.1.visible_at ≡ until) id claims
                c,
          )
    ]

pub restore-IsHidden :
    (key : String) (until now : ℤ) (entries : Claims) (maps : TopicMaps)
    → now <ℤ until
    → All (λ (e : String × MemoryClaim). e.0 ≡ key → e.1.visible_at ≡ until) entries
    → IsHidden key until maps
    → IsHidden key until (restore now entries maps)
unfolding restore
restore-IsHidden key until now [] maps early e h = h
restore-IsHidden key until now ((id, claim) ∷ entries) maps early (at, e) h =
    restore-IsHidden key until now entries (restore_claim now id claim maps) early e
      (restore_claim-IsHidden key until now id claim maps early at h)

-- Where an id does not wait, nothing due has it.
pub due_of-other :
    (topic key : String) (now : ℤ) (ready : Ready)
    → All (IsKept topic) ready
    → lookup key ready ≡ none
    → All (λ (msg : Message). msg.id ≢ key) (due_of now ready)
unfolding due_of lookup
due_of-other topic key now [] r free = tt
due_of-other topic key now ((id, msg) ∷ ready) ((same, t), r) free = elim (Bool-cases (id == key)) [
  | inl hit ↦ absurd (ground (arith, hit, free))
  | inr miss ↦
      let other : msg.id ≢ key =
        λ e. absurd (ground (arith, miss, (string_eq.beq_iff id key).1 (sym same ∙ e))) in
      let rest = due_of-other topic key now ready r (ground (arith, miss, free)) in
      elim (Bool-cases (not (ltb_ℤ now msg.available_at))) [
        | inl due ↦ rw due (other, rest)
        | inr early ↦ rw early rest
      ]
]

module _ (topic key : String) (until now timeout limit : ℤ) (maps : TopicMaps)
    (early : now <ℤ until) (w : IsTopic topic maps) (h : IsHidden key until maps) where
  selected-other :
      All (λ (msg : Message). msg.id ≢ key) (selected now limit (restore now maps.1 maps).0)
  selected-other =
      let maps' : TopicMaps = restore now maps.1 maps in
      let w' : IsTopic topic maps' = restore-IsTopic topic now maps.1 maps w.1.0 w in
      let h' : IsHidden key until maps' = restore-IsHidden key until now maps.1 maps early h.1 h in
      selected-All topic (λ (msg : Message). msg.id ≢ key) now limit maps'.0
        (due_of-other topic key now maps'.0 w'.0.0 h'.0)

  -- A hidden message is not handed out before its time, and stays hidden.
  pub claim_topic-other :
      All (λ (msg : Message). msg.id ≢ key) (claim_topic now timeout limit maps).0
  unfolding claim_topic
  claim_topic-other =
      All-map attempted (λ (msg : Message). msg.id ≢ key)
        (selected now limit (restore now maps.1 maps).0) selected-other

  pub claim_topic-IsHidden : IsHidden key until (claim_topic now timeout limit maps).1
  unfolding claim_topic
  claim_topic-IsHidden =
      let maps' : TopicMaps = restore now maps.1 maps in
      hand_out-IsHidden key until (now +ℤ timeout) (selected now limit maps'.0) maps'
        (All-imp (λ (msg : Message). msg.id ≢ key)
          (λ (msg : Message). msg.id ≡ key → now +ℤ timeout ≡ until)
          (λ msg. λ other. λ same. absurd (other same)) (selected now limit maps'.0) selected-other)
        (restore-IsHidden key until now maps.1 maps early h.1 h)

-- Every message that a claim gives is hidden afterwards.
pub claim_topic-hides :
    (topic : String) (now timeout limit : ℤ) (maps : TopicMaps)
    → IsTopic topic maps
    → All
        (λ (msg : Message). IsHidden msg.id (now +ℤ timeout) (claim_topic now timeout limit maps).1)
        (claim_topic now timeout limit maps).0
unfolding claim_topic
claim_topic-hides topic now timeout limit maps w =
    let maps' : TopicMaps = restore now maps.1 maps in
    let w' : IsTopic topic maps' = restore-IsTopic topic now maps.1 maps w.1.0 w in
    let due = selected now limit maps'.0 in
    All-map attempted
      (λ (msg : Message). IsHidden msg.id (now +ℤ timeout) (hand_out (now +ℤ timeout) due maps'))
      due (hand_out-hides (now +ℤ timeout) due maps' w'.1.1)
