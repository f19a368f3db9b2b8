-- ===== src/Common/Sort.antt =====
-- The order of texts, and `sort.Slice` by a comparison: what it gives where no two elements are tied.
use Prim.Native.Nat.{ℕ, zero, suc, ◌≤◌}
use Prim.Native.Char.{code}
use Prim.Native.String.{String}
use mathlib.Core.Path.{◌≡◌, refl, ap, subst}
use mathlib.Core.Logic.{◌⊎◌, inl, inr}
use mathlib.Core.Bool.{Bool, true, false}
use mathlib.Core.List.{List, [], ◌∷◌}
use native.Mathlib.Omega.{arith}
use ticket_hub.Common.Tests.{ltb, if◌then◌else◌, Bool-cases}
use ticket_hub.Common.Lists.{length, take, All, Mem, All-imp, All-Mem}

-- Byte by byte, which for UTF-8 is code point by code point.
unfoldable pub text_ltb : String → String → Bool
text_ltb a String.[] = false
text_ltb String.[] (String.◌∷◌ d t) = true
text_ltb (String.◌∷◌ c s) (String.◌∷◌ d t) =
    let rest = text_ltb s t in
    if ltb (code c) (code d) then true else if ltb (code d) (code c) then false else rest

pub text_ltb_asymm : (a b : String) → text_ltb a b ≡ true → text_ltb b a ≡ false
unfolding text_ltb
text_ltb_asymm String.[] String.[] h = ground arith
text_ltb_asymm (String.◌∷◌ c s) String.[] h = ground arith
text_ltb_asymm String.[] (String.◌∷◌ d t) h = ground arith
text_ltb_asymm (String.◌∷◌ c s) (String.◌∷◌ d t) h = ground (arith, text_ltb_asymm s t)

module _ {A : Type 0} (before : A → A → Bool) where
  unfoldable pub insert_by : A → List A → List A
  insert_by x [] = x ∷ []
  insert_by x (y ∷ ys) = let rest = insert_by x ys in if before y x then y ∷ rest else x ∷ y ∷ ys

  unfoldable pub sort_by : List A → List A
  unfolding insert_by
  sort_by [] = []
  sort_by (x ∷ xs) = insert_by x (sort_by xs)

  -- No element comes before the one that stands ahead of it.
  abbrev pub IsOrdered : List A → Type 0
  IsOrdered [] = Unit
  IsOrdered (x ∷ []) = Unit
  IsOrdered (x ∷ y ∷ ys) = (before y x ≡ false) × IsOrdered (y ∷ ys)

  All-insert_by : (P : A → Type 0) (x : A) (xs : List A) → P x → All P xs → All P (insert_by x xs)
  unfolding insert_by
  All-insert_by P x [] h a = (h, tt)
  All-insert_by P x (y ∷ ys) h (p, a) = elim (Bool-cases (before y x)) [
    | inl later ↦ rw later (p, All-insert_by P x ys h a)
    | inr here ↦ rw here (h, (p, a))
  ]

  pub All-sort_by : (P : A → Type 0) (xs : List A) → All P xs → All P (sort_by xs)
  unfolding sort_by
  All-sort_by P [] a = tt
  All-sort_by P (x ∷ xs) (h, a) = All-insert_by P x (sort_by xs) h (All-sort_by P xs a)

  insert_by-Mem : (a x : A) (xs : List A) → Mem a (x ∷ xs) → Mem a (insert_by x xs)
  unfolding insert_by
  insert_by-Mem a x [] m = m
  insert_by-Mem a x (y ∷ ys) m = elim (Bool-cases (before y x)) [
    | inr here ↦ rw here m
    | inl later ↦ rw later (elim m [
      | inl e ↦ inr (insert_by-Mem a x ys (inl e))
      | inr k ↦ elim k [ inl e ↦ inl e | inr k' ↦ inr (insert_by-Mem a x ys (inr k')) ]
    ])
  ]

  pub sort_by-Mem : (a : A) (xs : List A) → Mem a xs → Mem a (sort_by xs)
  unfolding sort_by
  sort_by-Mem a (x ∷ xs) (inl e) = insert_by-Mem a x (sort_by xs) (inl e)
  sort_by-Mem a (x ∷ xs) (inr m) = insert_by-Mem a x (sort_by xs) (inr (sort_by-Mem a xs m))
  sort_by-Mem a [] m = elim m [ ]

  length-insert_by : (x : A) (xs : List A) → length (insert_by x xs) ≡ suc (length xs)
  unfolding insert_by
  length-insert_by x [] = refl
  length-insert_by x (y ∷ ys) = ground (arith, length-insert_by x ys)

  pub length-sort_by : (xs : List A) → length (sort_by xs) ≡ length xs
  unfolding sort_by
  length-sort_by [] = refl
  length-sort_by (x ∷ xs) = omega (arith, length-insert_by x (sort_by xs), length-sort_by xs)

  module _ (asymm : (a b : A) → before a b ≡ true → before b a ≡ false) where
    insert_by-IsOrdered : (x : A) (xs : List A) → IsOrdered xs → IsOrdered (insert_by x xs)
    unfolding insert_by
    insert_by-IsOrdered x [] h = tt
    insert_by-IsOrdered x (y ∷ []) h = elim (Bool-cases (before y x)) [
      | inl later ↦ rw later (asymm y x later, tt)
      | inr here ↦ rw here (here, tt)
    ]
    insert_by-IsOrdered x (y ∷ z ∷ zs) (p, h) = elim (Bool-cases (before y x)) [
      | inr here ↦ rw here (here, (p, h))
      | inl later ↦
          let ih = insert_by-IsOrdered x (z ∷ zs) h in
          elim (Bool-cases (before z x)) [
            | inl further ↦ rw later (rw further (p, rw further at ih))
            | inr there ↦ rw later (rw there (asymm y x later, (there, h)))
          ]
    ]

    -- The result is ordered.
    pub sort_by-IsOrdered : (xs : List A) → IsOrdered (sort_by xs)
    unfolding sort_by
    sort_by-IsOrdered [] = tt
    sort_by-IsOrdered (x ∷ xs) = insert_by-IsOrdered x (sort_by xs) (sort_by-IsOrdered xs)

  pub take-IsOrdered : (n : ℕ) (xs : List A) → IsOrdered xs → IsOrdered (take n xs)
  take-IsOrdered zero xs h = tt
  take-IsOrdered (suc n) [] h = tt
  take-IsOrdered (suc zero) (x ∷ xs) h = tt
  take-IsOrdered (suc (suc n)) (x ∷ []) h = tt
  take-IsOrdered (suc (suc n)) (x ∷ y ∷ ys) (p, h) = (p, take-IsOrdered (suc n) (y ∷ ys) h)

module _ {A : Type 0} where
  pub All-take : (P : A → Type 0) (n : ℕ) (xs : List A) → All P xs → All P (take n xs)
  All-take P zero xs a = tt
  All-take P (suc n) [] a = tt
  All-take P (suc n) (x ∷ xs) (h, a) = (h, All-take P n xs a)

  pub take_all : (n : ℕ) (xs : List A) → length xs ≤ n → take n xs ≡ xs
  take_all zero [] h = refl
  take_all zero (x ∷ xs) h = absurd (omega arith)
  take_all (suc n) [] h = refl
  take_all (suc n) (x ∷ xs) h = ap (◌∷◌ x) (take_all n xs (omega arith))

module _ {A : Type 0} (before : A → A → Bool)
    (trans : (a b c : A) → before b a ≡ false → before c b ≡ false → before c a ≡ false) where
  -- In an ordered list nothing comes before an element that stands ahead of it.
  IsOrdered-head :
      (x : A) (xs : List A) → IsOrdered before (x ∷ xs) → All (λ (y : A). before y x ≡ false) xs
  IsOrdered-head x [] h = tt
  IsOrdered-head x (y ∷ ys) (p, h) = (
    p,
    All-imp (λ (z : A). before z y ≡ false) (λ (z : A). before z x ≡ false) (λ z q. trans x y z p q)
        ys (IsOrdered-head y ys h),
  )

  IsOrdered-tail : (x : A) (xs : List A) → IsOrdered before (x ∷ xs) → IsOrdered before xs
  IsOrdered-tail x [] h = tt
  IsOrdered-tail x (y ∷ ys) (p, h) = h

  -- What the front of an ordered list leaves out comes before nothing of it.
  pub take-rest :
      (n : ℕ) (xs : List A) (o x : A)
      → IsOrdered before xs
      → Mem o xs
      → Mem x (take n xs)
      → Mem o (take n xs) ⊎ (before o x ≡ false)
  take-rest zero xs o x h m k = elim k [ ]
  take-rest (suc n) [] o x h m k = elim k [ ]
  take-rest (suc n) (y ∷ ys) o x h (inl e) k = inl (inl e)
  take-rest (suc n) (y ∷ ys) o x h (inr m) (inl e) = inr (
      subst (λ (t : A). before o t ≡ false) e
        (All-Mem (λ (z : A). before z y ≡ false) o ys (IsOrdered-head y ys h) m))
  take-rest (suc n) (y ∷ ys) o x h (inr m) (inr k) =
      elim (take-rest n ys o x (IsOrdered-tail y ys h) m k) [
        | inl there ↦ inl (inr there)
        | inr late ↦ inr late
      ]
