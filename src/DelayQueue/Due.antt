-- ===== src/DelayQueue/Due.antt =====
-- A message that is due is handed out.
use ticket_hub.Common.{
  ◌+◌, ◌≤◌, ℤ, pos, String, ◌≡◌, ap, subst, ◌∙◌, ◌⊎◌, inl, inr, true, not, some, [], ◌∷◌, map,
  arith, Bool-cases, ◌==◌, nat_eq, string_eq, int_eq, length, All, Mem, map-Mem, ◌≤ℤ◌, ltb_ℤ,
}
use ticket_hub.Common.Dict.{lookup, insert, lookup-insert, length-insert-le}
use ticket_hub.Common.Sort.{sort_by, sort_by-Mem, length-sort_by}
use ticket_hub.DelayQueue.{
  Message, MemoryClaim, Ready, Claims, TopicMaps, restore_claim, restore, due_of, comes_before,
  attempted, selected, claim_topic,
}
use ticket_hub.DelayQueue.Topic.{IsClaimed}

-- The id waits with a message of its own that is due.
abbrev pub IsDue : String → ℤ → Ready → Type 0
IsDue key now ready =
    (msg : Message) × (lookup key ready ≡ some msg) × (msg.id ≡ key) × (msg.available_at ≤ℤ now)

insert-IsDue :
    (topic key : String) (now : ℤ) (id : String) (claim : MemoryClaim) (ready : Ready)
    → IsClaimed topic (id, claim)
    → not (ltb_ℤ now claim.visible_at) ≡ true
    → (id ≡ key) ⊎ IsDue key now ready
    → IsDue key now (insert id claim.message ready)
insert-IsDue topic key now id claim ready ((same, t), late) over due =
    elim (Bool-cases (id == key)) [
      | inl hit ↦
          let here : id ≡ key = (string_eq.beq_iff id key).0 hit in
          (
            claim.message,
            ground (arith, hit, lookup-insert id key claim.message ready),
            same ∙ here,
            ground (arith, over, late),
          )
      | inr miss ↦ elim due [
        | inl here ↦ absurd (ground (arith, miss, (string_eq.beq_iff id key).1 here))
        | inr (msg, found, at, past) ↦
            (msg, ground (arith, miss, found, lookup-insert id key claim.message ready), at, past)
      ]
    ]

-- Restoring keeps a due message, and makes one of a claim that ran out.
pub restore-IsDue :
    (topic key : String) (now : ℤ) (entries : Claims) (maps : TopicMaps)
    → All (IsClaimed topic) entries
    → IsDue key now maps.0
    → IsDue key now (restore now entries maps).0
unfolding restore restore_claim
restore-IsDue topic key now [] maps e due = due
restore-IsDue topic key now ((id, claim) ∷ entries) (ready, claims) (h, e) due =
    restore-IsDue topic key now entries (restore_claim now id claim (ready, claims)) e
      (elim (Bool-cases (not (ltb_ℤ now claim.visible_at))) [
        | inr still ↦ rw still due
        | inl over ↦ rw over (insert-IsDue topic key now id claim ready h over (inr due))
      ])

pub claim_over-IsDue :
    (topic key : String) (now : ℤ) (claim : MemoryClaim) (entries : Claims) (maps : TopicMaps)
    → All (IsClaimed topic) entries
    → Mem (key, claim) entries
    → claim.visible_at ≤ℤ now
    → IsDue key now (restore now entries maps).0
unfolding restore restore_claim
claim_over-IsDue topic key now claim [] maps e m over = elim m [ ]
claim_over-IsDue topic key now claim ((id, first) ∷ entries) (ready, claims) (h, e) (inr m) over =
    claim_over-IsDue topic key now claim entries (restore_claim now id first (ready, claims)) e m
      over
claim_over-IsDue topic key now claim ((id, first) ∷ entries) (ready, claims) (h, e) (inl same)
      over =
    let at : first.visible_at ≡ claim.visible_at =
      ap (λ (x : String × MemoryClaim). x.1.visible_at) same in
    let out : not (ltb_ℤ now first.visible_at) ≡ true = ground (arith, over, at) in
    restore-IsDue topic key now entries (restore_claim now id first (ready, claims)) e (
      rw out (
        insert-IsDue topic key now id first ready h out
          (inl (ap (λ (x : String × MemoryClaim). x.0) same))))

pub length-restore :
    (now : ℤ) (entries : Claims) (maps : TopicMaps)
    → length (restore now entries maps).0 ≤ length maps.0 + length entries
unfolding restore restore_claim
length-restore now [] maps = omega arith
length-restore now ((id, claim) ∷ entries) (ready, claims) =
    let rest = length-restore now entries (restore_claim now id claim (ready, claims)) in
    ground (arith, rest, length-insert-le id claim.message ready)

length-due_of : (now : ℤ) (ready : Ready) → length (due_of now ready) ≤ length ready
unfolding due_of
length-due_of now [] = omega arith
length-due_of now ((id, msg) ∷ ready) = ground (arith, length-due_of now ready)

pub due_of-Mem :
    (now : ℤ) (key : String) (msg : Message) (ready : Ready)
    → lookup key ready ≡ some msg
    → msg.available_at ≤ℤ now
    → Mem msg (due_of now ready)
unfolding due_of lookup
due_of-Mem now key msg [] found due = absurd (ground (arith, found))
due_of-Mem now key msg ((id, first) ∷ ready) found due = elim (Bool-cases (id == key)) [
  | inl hit ↦
      let same : first ≡ msg = ground (arith, hit, found) in
      let first_due : not (ltb_ℤ now first.available_at) ≡ true =
        ground (arith, due, ap (λ (m : Message). m.available_at) same) in
      rw first_due (inl same)
  | inr miss ↦
      let rest = due_of-Mem now key msg ready (ground (arith, miss, found)) due in
      elim (Bool-cases (not (ltb_ℤ now first.available_at))) [
        | inl taken ↦ rw taken (inr rest)
        | inr early ↦ rw early rest
      ]
]

-- Within the limit everything due is claimed.
pub selected_all :
    (now limit : ℤ) (ready : Ready)
    → pos (length ready) ≤ℤ limit
    → selected now limit ready ≡ sort_by comes_before (due_of now ready)
unfolding selected
selected_all now limit ready room =
    ground (arith, room, length-sort_by comes_before (due_of now ready), length-due_of now ready)

-- A message that is due, waiting or with a claim that ran out, is handed out where the limit has
-- room for the whole topic.
pub claim_topic-due :
    (key : String) (now timeout limit : ℤ) (maps : TopicMaps)
    → pos (length maps.0 + length maps.1) ≤ℤ limit
    → IsDue key now (restore now maps.1 maps).0
    → Mem key (map (λ (msg : Message). msg.id) (claim_topic now timeout limit maps).0)
unfolding claim_topic
claim_topic-due key now timeout limit maps room (msg, found, same, due) =
    let maps' : TopicMaps = restore now maps.1 maps in
    let fits : pos (length maps'.0) ≤ℤ limit =
      ground (arith, room, length-restore now maps.1 maps) in
    let chosen : Mem msg (selected now limit maps'.0) = rw (selected_all now limit maps'.0 fits) (
      sort_by-Mem comes_before msg (due_of now maps'.0)
        (due_of-Mem now key msg maps'.0 found due)) in
    subst
      (λ (id : String).
        Mem id (map (λ (m : Message). m.id) (map attempted (selected now limit maps'.0))))
      same
      (map-Mem (λ (m : Message). m.id) (attempted msg) (map attempted (selected now limit maps'.0))
        (map-Mem attempted msg (selected now limit maps'.0) chosen))
