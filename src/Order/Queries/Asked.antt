-- ===== src/Order/Queries/Asked.antt =====
-- app/order-service/internal/application/order_query.go over
-- infrastructure/memory/order_repository.go: what a query asks for, in terms of the fields of an
-- order.
use ticket_hub.Common.{
  ℤ, ◌≡◌, refl, ◌⊎◌, inl, inr, true, Option, none, some, List, [], ◌∷◌, arith, Bool-cases, ◌==◌,
  nat_eq, string_eq, int_eq, All, Mem, ◌<ℤ◌, ◌≤ℤ◌, ltb_ℤ, eqb_ℤ_iff,
}
use ticket_hub.Common.Sort.{IsOrdered}
use ticket_hub.Order.Domain.{Order}
use ticket_hub.Order.Domain
use ticket_hub.Order.Queries.{
  OrderListCursor, status_text, is_wanted, is_before, is_listed, is_newer,
}

-- What a query asks for: a status, by its text, if one is wanted.
abbrev pub HasStatus : Option Domain.Status → Order → Type 0
HasStatus none o = Unit
HasStatus (some s) o = status_text o.status ≡ status_text s

-- The order is made before the time of the cursor, or at that time with a smaller number; every order
-- is, where the cursor has no time.
abbrev pub IsPast : Option ℤ → ℤ → Order → Type 0
IsPast none number o = Unit
IsPast (some t) number o = (o.created_at <ℤ t) ⊎ ((o.created_at ≡ t) × (o.order_number <ℤ number))

-- Each order is made after the next one, or at the same time and has no smaller number.
abbrev pub NewestFirst : List Order → Type 0
NewestFirst [] = Unit
NewestFirst (x ∷ []) = Unit
NewestFirst (x ∷ y ∷ ys) =
    ((y.created_at <ℤ x.created_at)
      ⊎ ((y.created_at ≡ x.created_at) × (y.order_number ≤ℤ x.order_number)))
    × NewestFirst (y ∷ ys)

is_wanted-HasStatus :
    (wanted : Option Domain.Status) (o : Order) → is_wanted wanted o ≡ true → HasStatus wanted o
is_wanted-HasStatus none o h = tt
is_wanted-HasStatus (some s) o h = (string_eq.beq_iff (status_text o.status) (status_text s)).0 h

is_before-IsPast :
    (at : Option ℤ) (number : ℤ) (o : Order)
    → is_before (record { created_at = at; order_number = number }) o ≡ true
    → IsPast at number o
is_before-IsPast none number o h = tt
is_before-IsPast (some t) number o h = elim (Bool-cases (ltb_ℤ o.created_at t)) [
  | inl earlier ↦ inl (ground (arith, earlier))
  | inr no_sooner ↦ elim (Bool-cases (o.created_at == t)) [
    | inl same ↦ inr ((eqb_ℤ_iff o.created_at t).0 same, ground (arith, no_sooner, same, h))
    | inr other ↦ absurd (ground (arith, no_sooner, other, h))
  ]
]

pub is_listed-asked :
    (u : ℤ) (wanted : Option Domain.Status) (before : OrderListCursor) (o : Order)
    → is_listed u wanted before o ≡ true
    → (o.user_id ≡ u) × HasStatus wanted o × IsPast before.created_at before.order_number o
unfolding is_listed
is_listed-asked u wanted before o h = elim (Bool-cases (o.user_id == u)) [
  | inr other ↦ absurd (ground (arith, other, h))
  | inl own ↦ elim (Bool-cases (is_wanted wanted o)) [
    | inr unwanted ↦ absurd (ground (arith, own, unwanted, h))
    | inl status ↦ (
      (eqb_ℤ_iff o.user_id u).0 own,
      is_wanted-HasStatus wanted o status,
      is_before-IsPast before.created_at before.order_number o (ground (arith, own, status, h)),
    )
  ]
]

pub IsOrdered-NewestFirst : (xs : List Order) → IsOrdered is_newer xs → NewestFirst xs
unfolding is_newer
IsOrdered-NewestFirst [] h = tt
IsOrdered-NewestFirst (x ∷ []) h = tt
IsOrdered-NewestFirst (x ∷ y ∷ ys) (late, h) = (
  elim (Bool-cases (y.created_at == x.created_at)) [
    | inl same ↦ inr ((eqb_ℤ_iff y.created_at x.created_at).0 same, ground (arith, late, same))
    | inr other ↦ inl (ground (arith, late, other, eqb_ℤ_iff y.created_at x.created_at))
  ],
  IsOrdered-NewestFirst (y ∷ ys) h,
)

pub All-each : {A : Type 0} (P : A → Type 0) (xs : List A) → ((x : A) → Mem x xs → P x) → All P xs
All-each P [] each = tt
All-each P (x ∷ xs) each = (each x (inl refl), All-each P xs (λ y m. each y (inr m)))
