-- ===== src/DelayQueue/Topic.antt =====
-- What the maps of one topic keep: every message under its own id, and an id that the loops of
-- `ClaimDue` move between the two maps is in one of them afterwards.
use ticket_hub.Common.{
  ℤ, pos, String, ◌≡◌, refl, inl, inr, Bool, true, false, not, ◌||◌, Option, none, some, List, [],
  ◌∷◌, arith, Bool-cases, nat_eq, string_eq, int_eq, length, All, All-imp, pos_part, ◌+ℤ◌, ◌≤ℤ◌,
  ltb_ℤ, +ℤ_parts,
}
use ticket_hub.Common.Dict.{
  lookup, insert, erase, lookup-insert, lookup-erase, All-insert, All-erase, IsDistinct,
  insert-IsDistinct, erase-IsDistinct,
}
use ticket_hub.Common.Sort.{sort_by, All-sort_by, All-take}
use ticket_hub.DelayQueue.{
  Message, MemoryClaim, Ready, Claims, TopicMaps, restore_claim, restore, due_of, comes_before,
  attempted, claim_message, hand_out, selected, claim_topic,
}

unfoldable pub is_some : {V : Type 0} → Option V → Bool
is_some none = false
is_some (some v) = true

-- The id waits in the topic or is claimed there.
unfoldable pub is_held : String → TopicMaps → Bool
unfolding is_some
is_held id (ready, claims) = is_some (lookup id ready) || is_some (lookup id claims)

restore_claim-is_held :
    (now : ℤ) (key id : String) (claim : MemoryClaim) (maps : TopicMaps)
    → is_held key maps ≡ true
    → is_held key (restore_claim now id claim maps) ≡ true
unfolding restore_claim is_held is_some
restore_claim-is_held now key id claim (ready, claims) held = ground (
  arith,
  string_eq.beq_iff id key,
  lookup-insert id key claim.message ready,
  lookup-erase id key claims,
)

pub restore-is_held :
    (now : ℤ) (key : String) (entries : Claims) (maps : TopicMaps)
    → is_held key maps ≡ true
    → is_held key (restore now entries maps) ≡ true
unfolding restore
restore-is_held now key [] maps held = held
restore-is_held now key ((id, claim) ∷ entries) maps held =
    restore-is_held now key entries (restore_claim now id claim maps)
      (restore_claim-is_held now key id claim maps held)

claim_message-is_held :
    (visible_at : ℤ) (key : String) (msg : Message) (maps : TopicMaps)
    → is_held key maps ≡ true
    → is_held key (claim_message visible_at msg maps) ≡ true
unfolding claim_message is_held is_some
claim_message-is_held visible_at key msg (ready, claims) held =
    let claim : MemoryClaim = record { message = attempted msg; visible_at = visible_at } in
    ground (
      arith,
      string_eq.beq_iff msg.id key,
      lookup-insert msg.id key claim claims,
      lookup-erase msg.id key ready,
    )

pub hand_out-is_held :
    (visible_at : ℤ) (key : String) (due : List Message) (maps : TopicMaps)
    → is_held key maps ≡ true
    → is_held key (hand_out visible_at due maps) ≡ true
unfolding hand_out
hand_out-is_held visible_at key [] maps held = held
hand_out-is_held visible_at key (msg ∷ due) maps held =
    hand_out-is_held visible_at key due (claim_message visible_at msg maps)
      (claim_message-is_held visible_at key msg maps held)

-- No message that is held is lost by a claim.
pub claim_topic-is_held :
    (now timeout limit : ℤ) (key : String) (maps : TopicMaps)
    → is_held key maps ≡ true
    → is_held key (claim_topic now timeout limit maps).1 ≡ true
unfolding claim_topic
claim_topic-is_held now timeout limit key maps held =
    let maps' : TopicMaps = restore now maps.1 maps in
    hand_out-is_held (now +ℤ timeout) key (selected now limit maps'.0) maps'
      (restore-is_held now key maps.1 maps held)

module _ (topic : String) where
  -- The message stands in its topic, under its own id.
  abbrev pub IsKept : String × Message → Type 0
  IsKept e = (e.1.id ≡ e.0) × (e.1.topic ≡ topic)

  -- A claim ends at its message's time or later.
  abbrev pub IsClaimed : String × MemoryClaim → Type 0
  IsClaimed e = IsKept (e.0, e.1.message) × (e.1.message.available_at ≤ℤ e.1.visible_at)

  abbrev pub IsTopic : TopicMaps → Type 0
  IsTopic maps =
      (All IsKept maps.0 × IsDistinct maps.0) × (All IsClaimed maps.1 × IsDistinct maps.1)

  restore_claim-IsTopic :
      (now : ℤ) (id : String) (claim : MemoryClaim) (maps : TopicMaps)
      → IsClaimed (id, claim)
      → IsTopic maps
      → IsTopic (restore_claim now id claim maps)
  unfolding restore_claim
  restore_claim-IsTopic now id claim (ready, claims) (same, late) ((r, r'), (c, c')) =
      elim (Bool-cases (not (ltb_ℤ now claim.visible_at))) [
        | inr still ↦ rw still ((r, r'), (c, c'))
        | inl over ↦ rw over (
          (
            All-insert IsKept id claim.message ready same r,
            insert-IsDistinct id claim.message ready r',
          ),
          (All-erase IsClaimed id claims c, erase-IsDistinct id claims c'),
        )
      ]

  pub restore-IsTopic :
      (now : ℤ) (entries : Claims) (maps : TopicMaps)
      → All IsClaimed entries
      → IsTopic maps
      → IsTopic (restore now entries maps)
  unfolding restore
  restore-IsTopic now [] maps e w = w
  restore-IsTopic now ((id, claim) ∷ entries) maps (h, e) w =
      restore-IsTopic now entries (restore_claim now id claim maps) e
        (restore_claim-IsTopic now id claim maps h w)

  pub hand_out-IsTopic :
      (visible_at : ℤ) (due : List Message) (maps : TopicMaps)
      → All (λ (msg : Message). (msg.available_at ≤ℤ visible_at) × (msg.topic ≡ topic)) due
      → IsTopic maps
      → IsTopic (hand_out visible_at due maps)
  unfolding hand_out claim_message
  hand_out-IsTopic visible_at [] maps d w = w
  hand_out-IsTopic visible_at (msg ∷ due) (ready, claims) ((h, t), d) ((r, r'), (c, c')) =
      let claim : MemoryClaim = record { message = attempted msg; visible_at = visible_at } in
      hand_out-IsTopic visible_at due (erase msg.id ready, insert msg.id claim claims) d
        (
          (All-erase IsKept msg.id ready r, erase-IsDistinct msg.id ready r'),
          (
            All-insert IsClaimed msg.id claim claims ((refl, t), h) c,
            insert-IsDistinct msg.id claim claims c',
          ),
        )

  -- What `due_of` selects.
  pub due_of-All :
      (now : ℤ) (ready : Ready)
      → All IsKept ready
      → All (λ (msg : Message). (msg.available_at ≤ℤ now) × (msg.topic ≡ topic)) (due_of now ready)
  unfolding due_of
  due_of-All now [] r = tt
  due_of-All now ((id, msg) ∷ ready) ((same, here), r) =
      elim (Bool-cases (not (ltb_ℤ now msg.available_at))) [
        | inl due ↦ rw due ((ground (arith, due), here), due_of-All now ready r)
        | inr early ↦ rw early (due_of-All now ready r)
      ]

  pub selected-All :
      (P : Message → Type 0) (now limit : ℤ) (ready : Ready)
      → All P (due_of now ready)
      → All P (selected now limit ready)
  unfolding selected
  selected-All P now limit ready h =
      let sorted : All P (sort_by comes_before (due_of now ready)) =
        All-sort_by comes_before P (due_of now ready) h in
      elim (Bool-cases (ltb_ℤ limit (pos (length (sort_by comes_before (due_of now ready)))))) [
        | inl more ↦
            rw more (All-take P (pos_part limit) (sort_by comes_before (due_of now ready)) sorted)
        | inr all ↦ rw all sorted
      ]

  pub claim_topic-IsTopic :
      (now timeout limit : ℤ) (maps : TopicMaps)
      → pos 0 ≤ℤ timeout
      → IsTopic maps
      → IsTopic (claim_topic now timeout limit maps).1
  unfolding claim_topic
  claim_topic-IsTopic now timeout limit maps long w =
      let maps' : TopicMaps = restore now maps.1 maps in
      let w' : IsTopic maps' = restore-IsTopic now maps.1 maps w.1.0 w in
      hand_out-IsTopic (now +ℤ timeout) (selected now limit maps'.0) maps'
        (All-imp (λ (msg : Message). (msg.available_at ≤ℤ now) × (msg.topic ≡ topic))
          (λ (msg : Message). (msg.available_at ≤ℤ now +ℤ timeout) × (msg.topic ≡ topic))
          (λ msg. λ h. (ground (arith, +ℤ_parts now timeout, h.0, long), h.1))
          (selected now limit maps'.0)
          (selected-All (λ (msg : Message). (msg.available_at ≤ℤ now) × (msg.topic ≡ topic)) now
            limit maps'.0 (due_of-All now maps'.0 w'.0.0)))
        w'
