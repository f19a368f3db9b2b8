-- ===== src/Common/Lists.antt =====
-- Lists measured and indexed by native numbers, under the library's names.
use Prim.Native.Nat.{ℕ, zero, suc, ◌+◌, min}
use mathlib.Core.Path.{◌≡◌, ap, subst}
use mathlib.Core.Logic.{◌⊎◌, inl, inr}
use mathlib.Core.List.{List, [], ◌∷◌, ◌++◌, map}
use mathlib.Core.Option.{Option, none, some}
use native.Mathlib.Omega.{arith}

module _ {ℓ} {A : Type ℓ} where
  abbrev pub length : List A → ℕ
  length [] = 0
  length (x ∷ xs) = suc (length xs)

  abbrev pub get_elem? : List A → ℕ → Option A
  get_elem? [] i = none
  get_elem? (x ∷ xs) zero = some x
  get_elem? (x ∷ xs) (suc i) = get_elem? xs i

  abbrev pub take : ℕ → List A → List A
  take zero xs = []
  take (suc n) [] = []
  take (suc n) (x ∷ xs) = x ∷ take n xs

  pub length-append : (xs ys : List A) → length (xs ++ ys) ≡ length xs + length ys
  length-append [] ys = omega arith
  length-append (x ∷ xs) ys = omega (arith, length-append xs ys)

  pub length-take : (n : ℕ) (xs : List A) → length (take n xs) ≡ min n (length xs)
  length-take zero xs = omega arith
  length-take (suc n) [] = omega arith
  length-take (suc n) (x ∷ xs) = omega (arith, length-take n xs)

  -- A predicate on every element, which computes to a tuple.
  abbrev pub All {κ} : (A → Type κ) → List A → Type κ
  All P [] = Unit
  All P (x ∷ xs) = P x × All P xs

-- `a` is one of the elements, with its place.
abbrev pub Mem : {A : Type 0} → A → List A → Type 0
Mem a [] = ⊥
Mem a (x ∷ xs) = (x ≡ a) ⊎ Mem a xs

module _ {ℓ} {A : Type ℓ} where
  pub All-imp {κ ρ} :
      (P : A → Type κ) (Q : A → Type ρ)
      → ((x : A) → P x → Q x)
      → (xs : List A) → All P xs
      → All Q xs
  All-imp P Q f [] a = tt
  All-imp P Q f (x ∷ xs) (h, a) = (f x h, All-imp P Q f xs a)

  pub All-append {κ} : (P : A → Type κ) (xs ys : List A) → All P xs → All P ys → All P (xs ++ ys)
  All-append P [] ys a b = b
  All-append P (x ∷ xs) ys (h, a) b = (h, All-append P xs ys a b)

  pub All-map {κ} :
      {B : Type ℓ} (f : B → A) (P : A → Type κ) (xs : List B)
      → All (λ (x : B). P (f x)) xs
      → All P (map f xs)
  All-map f P [] a = tt
  All-map f P (x ∷ xs) (h, a) = (h, All-map f P xs a)

pub All-Mem : {A : Type 0} (P : A → Type 0) (a : A) (xs : List A) → All P xs → Mem a xs → P a
All-Mem P a (x ∷ xs) (h, t) (inl e) = subst P e h
All-Mem P a (x ∷ xs) (h, t) (inr m) = All-Mem P a xs t m
All-Mem P a [] t m = elim m [ ]

pub map-Mem : {A B : Type 0} (f : A → B) (a : A) (xs : List A) → Mem a xs → Mem (f a) (map f xs)
map-Mem f a (x ∷ xs) (inl e) = inl (ap f e)
map-Mem f a (x ∷ xs) (inr m) = inr (map-Mem f a xs m)
map-Mem f a [] m = elim m [ ]

-- What holds of everything.
pub trivially : {A : Type 0} (xs : List A) → All (λ (x : A). Unit {0}) xs
trivially [] = tt
trivially (x ∷ xs) = (tt, trivially xs)

pub All-and :
    {A : Type 0} (P Q : A → Type 0) (xs : List A)
    → All P xs
    → All Q xs
    → All (λ (x : A). P x × Q x) xs
All-and P Q [] a b = tt
All-and P Q (x ∷ xs) (p, a) (q, b) = ((p, q), All-and P Q xs a b)
