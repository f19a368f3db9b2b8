-- ===== src/Common/Dict.antt =====
-- A Go map as an association list: a read of a missing key gives `none`, an assignment replaces
-- the value in place or adds the key, `delete` drops it.
use mathlib.Core.Path.{◌≡◌, refl}
use mathlib.Core.Option.{Option, none, some}
use mathlib.Core.List.{List, [], ◌∷◌}
use native.Mathlib.Omega.{arith}
use mathlib.Core.Path.{subst}
use mathlib.Core.Logic.{inl, inr}
use ticket_hub.Common.Lists.{All, All-imp, Mem, length}
use Prim.Native.Nat.{suc, ◌≤◌}
use ticket_hub.Common.Tests.{Bool-cases, Eq, ◌==◌, if◌then◌else◌}

abbrev pub Dict {ℓ κ} : Type ℓ → Type κ → Type (ℓ ⊔ κ)
Dict K V = List (K × V)

module _ {ℓ κ} {K : Type ℓ} {V : Type κ} ⦃e : Eq K⦄ where
  unfoldable pub lookup : K → Dict K V → Option V
  lookup k [] = none
  lookup k ((j, v) ∷ d) = if j == k then some v else lookup k d

  unfoldable pub insert : K → V → Dict K V → Dict K V
  insert k v [] = (k, v) ∷ []
  insert k v ((j, w) ∷ d) = if j == k then (k, v) ∷ d else (j, w) ∷ insert k v d

  -- Every entry of the key goes.
  unfoldable pub erase : K → Dict K V → Dict K V
  erase k [] = []
  erase k ((j, w) ∷ d) = let rest = erase k d in if j == k then rest else (j, w) ∷ rest

  pub lookup-insert :
      (k j : K) (v : V) (d : Dict K V)
      → lookup j (insert k v d) ≡ (if k == j then some v else lookup j d)
  unfolding lookup insert
  lookup-insert k j v [] = refl
  lookup-insert k j v ((i, w) ∷ d) =
      ground (arith, e.beq_iff k j, e.beq_iff i k, e.beq_iff i j, lookup-insert k j v d)

  pub lookup-erase :
      (k j : K) (d : Dict K V) → lookup j (erase k d) ≡ (if k == j then none else lookup j d)
  unfolding lookup erase
  lookup-erase k j [] = ground arith
  lookup-erase k j ((i, w) ∷ d) =
      ground (arith, e.beq_iff k j, e.beq_iff i k, e.beq_iff i j, lookup-erase k j d)

  -- A property of all entries.
  pub All-insert {ρ} :
      (P : K × V → Type ρ) (k : K) (v : V) (d : Dict K V)
      → P (k, v)
      → All P d
      → All P (insert k v d)
  unfolding insert
  All-insert P k v [] h a = (h, tt)
  All-insert P k v ((j, w) ∷ d) h a = elim (Bool-cases (j == k)) [
    | inl hit ↦ rw hit (h, a.1)
    | inr miss ↦ rw miss (a.0, All-insert P k v d h a.1)
  ]

  pub All-lookup {ρ} :
      (P : K × V → Type ρ) (k : K) (d : Dict K V) {v : V} → All P d → lookup k d ≡ some v → P (k, v)
  unfolding lookup
  All-lookup P k [] a found = absurd (ground (arith, found))
  All-lookup P k ((j, w) ∷ d) {v} a found = elim (Bool-cases (j == k)) [
    | inl hit ↦
        let same : j ≡ k = (e.beq_iff j k).0 hit in
        let value : w ≡ v = ground (arith, hit) in
        subst (λ t. P (t, v)) same (subst (λ t. P (j, t)) value a.0)
    | inr miss ↦ All-lookup P k d a.1 (ground (arith, miss))
  ]

  pub All-erase {ρ} : (P : K × V → Type ρ) (k : K) (d : Dict K V) → All P d → All P (erase k d)
  unfolding erase
  All-erase P k [] a = tt
  All-erase P k ((j, w) ∷ d) (h, a) = elim (Bool-cases (j == k)) [
    | inl hit ↦ rw hit (All-erase P k d a)
    | inr miss ↦ rw miss (h, All-erase P k d a)
  ]

  pub length-insert-le : (k : K) (v : V) (d : Dict K V) → length (insert k v d) ≤ suc (length d)
  unfolding insert
  length-insert-le k v [] = omega arith
  length-insert-le k v ((j, w) ∷ d) = ground (arith, length-insert-le k v d)

  pub length-erase-le : (k : K) (d : Dict K V) → length (erase k d) ≤ length d
  unfolding erase
  length-erase-le k [] = omega arith
  length-erase-le k ((j, w) ∷ d) = ground (arith, length-erase-le k d)

-- An entry that is found is one of the entries.
pub lookup-Mem :
    {K V : Type 0} ⦃e : Eq K⦄ (k : K) (d : Dict K V) {v : V} → lookup k d ≡ some v → Mem (k, v) d
unfolding lookup
lookup-Mem k [] found = absurd (ground (arith, found))
lookup-Mem ⦃e⦄ k ((j, w) ∷ d) {v} found = elim (Bool-cases (j == k)) [
  | inl hit ↦
      let same : j ≡ k = (e.beq_iff j k).0 hit in
      let value : w ≡ v = ground (arith, hit) in inl (cc (same, value))
  | inr miss ↦ inr (lookup-Mem k d (ground (arith, miss)))
]

module _ {K V : Type 0} ⦃e : Eq K⦄ where
  -- No key stands twice.
  abbrev pub IsDistinct : Dict K V → Type 0
  IsDistinct [] = Unit
  IsDistinct ((k, v) ∷ d) = (lookup k d ≡ none) × IsDistinct d

  pub insert-IsDistinct : (k : K) (v : V) (d : Dict K V) → IsDistinct d → IsDistinct (insert k v d)
  unfolding insert lookup
  insert-IsDistinct k v [] h = (refl, tt)
  insert-IsDistinct k v ((j, w) ∷ d) (fresh, h) = elim (Bool-cases (j == k)) [
    | inl hit ↦
        let same : j ≡ k = (e.beq_iff j k).0 hit in
        rw hit (subst (λ (t : K). lookup t d ≡ none) same fresh, h)
    | inr miss ↦ rw miss (
      ground (arith, e.beq_iff j k, e.beq_iff k j, lookup-insert k j v d),
      insert-IsDistinct k v d h,
    )
  ]

  pub erase-IsDistinct : (k : K) (d : Dict K V) → IsDistinct d → IsDistinct (erase k d)
  unfolding erase
  erase-IsDistinct k [] h = tt
  erase-IsDistinct k ((j, w) ∷ d) (fresh, h) = elim (Bool-cases (j == k)) [
    | inl hit ↦ rw hit (erase-IsDistinct k d h)
    | inr miss ↦ rw miss (ground (arith, lookup-erase k j d), erase-IsDistinct k d h)
  ]

  -- Where a key is missing, no entry has it.
  pub lookup-none :
      (P : K × V → Type 0) (k : K) (d : Dict K V)
      → lookup k d ≡ none
      → All (λ (x : K × V). x.0 ≡ k → P x) d
  unfolding lookup
  lookup-none P k [] h = tt
  lookup-none P k ((j, w) ∷ d) h = elim (Bool-cases (j == k)) [
    | inl hit ↦ absurd (ground (arith, hit, h))
    | inr miss ↦ (
      λ same. absurd (ground (arith, miss, (e.beq_iff j k).1 same)),
      lookup-none P k d (ground (arith, miss, h)),
    )
  ]

  -- What was written is the only entry of its key.
  pub insert-only :
      (P : K × V → Type 0) (k : K) (v : V) (d : Dict K V)
      → P (k, v)
      → IsDistinct d
      → All (λ (x : K × V). x.0 ≡ k → P x) (insert k v d)
  unfolding insert
  insert-only P k v [] p h = (λ same. p, tt)
  insert-only P k v ((j, w) ∷ d) p (fresh, h) = elim (Bool-cases (j == k)) [
    | inl hit ↦
        let same : j ≡ k = (e.beq_iff j k).0 hit in
        rw hit (λ at. p, lookup-none P k d (subst (λ (t : K). lookup t d ≡ none) same fresh))
    | inr miss ↦
        rw miss
          (λ same. absurd (ground (arith, miss, (e.beq_iff j k).1 same)), insert-only P k v d p h)
  ]

-- Where no key stands twice, every entry is the one that is found.
pub distinct_found :
    {K V : Type 0} ⦃e : Eq K⦄ (d : Dict K V)
    → IsDistinct d
    → All (λ (x : K × V). lookup x.0 d ≡ some x.1) d
unfolding lookup
distinct_found [] h = tt
distinct_found {K} {V} ⦃e⦄ ((j, w) ∷ d) (fresh, h) = (
  ground (arith, e.beq_iff j j),
  All-imp (λ (x : K × V). lookup x.0 d ≡ some x.1)
      (λ (x : K × V). lookup x.0 ((j, w) ∷ d) ≡ some x.1)
      (λ x found. elim (Bool-cases (j == x.0)) [
        | inl hit ↦
            let there : lookup x.0 d ≡ none =
              subst (λ (k : K). lookup k d ≡ none) ((e.beq_iff j x.0).0 hit) fresh in
            absurd (ground (arith, there, found))
        | inr miss ↦ ground (arith, miss, found)
      ])
      d (distinct_found d h),
)
