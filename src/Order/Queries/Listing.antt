-- ===== src/Order/Queries/Listing.antt =====
-- app/order-service/internal/application/order_query.go over
-- infrastructure/memory/order_repository.go: the orders that match a query, in the order of the
-- pages, and how a page is cut from them.
use ticket_hub.Common.{
  ℕ, zero, suc, ◌≤◌, ℤ, pos, negsuc, String, ◌≡◌, refl, sym, ap, subst, ◌∙◌, ◌⊎◌, inl, inr, true,
  false, ◌&&◌, Option, none, some, List, [], ◌∷◌, arith, ltb, if◌then◌else◌, Bool-cases, ◌==◌,
  nat_eq, string_eq, int_eq, length, take, length-take, All, Mem, ◌+ℤ◌, ltb_ℤ, eqb_ℤ_iff,
}
use ticket_hub.Common.Dict.{lookup}
use ticket_hub.Common.Sort.{sort_by}
use ticket_hub.Errors.{ok}
use ticket_hub.Order.Domain.{Order, Status}
use ticket_hub.Order.Domain
use ticket_hub.Order.Memory.{Orders}
use ticket_hub.Order.Queries.{
  OrderListCursor, OrderPage, page_limit, last_of, cursor_of, page_of, is_wanted, is_before,
  is_listed, listed, is_newer, list_by_user_id_page,
}

pub is_newer_asymm : (a b : Order) → is_newer a b ≡ true → is_newer b a ≡ false
unfolding is_newer
is_newer_asymm a b h =
    ground (arith, h, eqb_ℤ_iff a.created_at b.created_at, eqb_ℤ_iff b.created_at a.created_at)

pub is_newer_trans :
    (a b c : Order) → is_newer b a ≡ false → is_newer c b ≡ false → is_newer c a ≡ false
unfolding is_newer
is_newer_trans a b c h k = ground (arith, h, k)

pub page_limit-pos : (limit : ℤ) → (m : ℕ) × (page_limit limit ≡ pos m) × (1 ≤ m) × (m ≤ 100)
unfolding page_limit
page_limit-pos (pos zero) = (20, refl, omega arith, omega arith)
page_limit-pos (pos (suc n)) = elim (Bool-cases (ltb 100 (suc n))) [
  | inl more ↦ (100, ground (arith, more), omega arith, omega arith)
  | inr fits ↦ (suc n, ground (arith, fits), omega arith, ground (arith, fits))
]
page_limit-pos (negsuc n) = (20, ground arith, omega arith, omega arith)

pub last_of-Mem :
    {A : Type 0} (xs : List A) → 1 ≤ length xs → (x : A) × (last_of xs ≡ some x) × Mem x xs
unfolding last_of
last_of-Mem [] h = absurd (omega arith)
last_of-Mem (x ∷ []) h = (x, refl, inl refl)
last_of-Mem (x ∷ y ∷ ys) h =
    let (z, found, m) = last_of-Mem (y ∷ ys) (omega arith) in (z, ground (arith, found), inr m)

take-take : {A : Type 0} (m : ℕ) (xs : List A) → take m (take (suc m) xs) ≡ take m xs
take-take zero xs = refl
take-take (suc m) [] = refl
take-take (suc m) (x ∷ xs) = ap (◌∷◌ x) (take-take m xs)

-- The front of all that matches as a page.
abbrev pub front_page : (OrderListCursor → String) → ℕ → List Order → OrderPage
front_page encode m xs = record {
  items = take m xs;
  next_cursor = elim (last_of (take m xs)) [ none ↦ none | some o ↦ some (encode (cursor_of o)) ];
}

abbrev pub whole_page : List Order → OrderPage
whole_page xs = record { items = xs; next_cursor = none }

-- A page is cut from one item more than its limit.
pub page_of-take :
    (encode : OrderListCursor → String) (m : ℕ) (xs items : List Order)
    → items ≡ (if ltb (suc m) (length xs) then take (suc m) xs else xs)
    → page_of encode (pos m) items
      ≡ (if ltb m (length xs) then front_page encode m xs else whole_page xs)
unfolding page_of
page_of-take encode m xs items cut = elim (Bool-cases (ltb (suc m) (length xs))) [
  | inl more ↦
      let e : items ≡ take (suc m) xs = cut ∙ rw more refl in
      let long : ltb_ℤ (pos m) (pos (length (take (suc m) xs))) ≡ true =
        ground (arith, more, length-take (suc m) xs) in
      let longer : ltb m (length xs) ≡ true = ground (arith, more) in
      subst
        (λ (ys : List Order).
          page_of encode (pos m) ys
          ≡ (if ltb m (length xs) then front_page encode m xs else whole_page xs))
        (sym e)
        (rw long (
          rw longer (
            ap
              (λ (ys : List Order). record {
                items = ys;
                next_cursor = elim (last_of ys) [
                  | none ↦ none
                  | some o ↦ some (encode (cursor_of o))
                ];
              })
              (take-take m xs))))
  | inr few ↦
      let e : items ≡ xs = cut ∙ rw few refl in
      subst
        (λ (ys : List Order).
          page_of encode (pos m) ys
          ≡ (if ltb m (length xs) then front_page encode m xs else whole_page xs))
        (sym e)
        (elim (Bool-cases (ltb m (length xs))) [
          | inl longer ↦
              let test : ltb_ℤ (pos m) (pos (length xs)) ≡ true = ground (arith, longer) in
              rw longer (rw test refl)
          | inr short ↦
              let test : ltb_ℤ (pos m) (pos (length xs)) ≡ false = ground (arith, short) in
              rw short (rw test refl)
        ])
]

module _ (u : ℤ) (wanted : Option Domain.Status) (before : OrderListCursor) where
  pub listed-All :
      (P : Order → Type 0) (orders : Orders)
      → All (λ (e : ℤ × Order). P e.1) orders
      → All
          (λ (o : Order). P o × (is_listed u wanted before o ≡ true))
          (listed u wanted before orders)
  unfolding listed
  listed-All P [] a = tt
  listed-All P ((n, o) ∷ orders) (p, a) = elim (Bool-cases (is_listed u wanted before o)) [
    | inl hit ↦ rw hit ((p, hit), listed-All P orders a)
    | inr miss ↦ rw miss (listed-All P orders a)
  ]

  pub listed-Mem :
      (n : ℤ) (o : Order) (orders : Orders)
      → Mem (n, o) orders
      → is_listed u wanted before o ≡ true
      → Mem o (listed u wanted before orders)
  unfolding listed
  listed-Mem n o ((k, x) ∷ orders) (inl e) hit =
      let same : x ≡ o = ap (λ (t : ℤ × Order). t.1) e in
      let first : is_listed u wanted before x ≡ true =
        subst (λ (t : Order). is_listed u wanted before t ≡ true) (sym same) hit in
      rw first (inl same)
  listed-Mem n o ((k, x) ∷ orders) (inr m) hit =
      let rest = listed-Mem n o orders m hit in
      elim (Bool-cases (is_listed u wanted before x)) [
        | inl first ↦ rw first (inr rest)
        | inr miss ↦ rw miss rest
      ]
  listed-Mem n o [] m hit = elim m [ ]

  -- All that matches, in the order of the pages.
  abbrev pub sorted : Orders → List Order
  sorted orders = sort_by is_newer (listed u wanted before orders)

  -- What the memory repository gives for one item more than the limit.
  pub listed_items :
      (m : ℕ) (orders : Orders)
      → list_by_user_id_page u wanted before (pos m +ℤ pos 1) orders
        ≡ ok (
            if ltb (suc m) (length (sorted orders))
            then take (suc m) (sorted orders)
            else sorted orders)
  unfolding list_by_user_id_page ◌+ℤ◌
  listed_items m orders = ground arith

  -- Two stored orders that are not the same are listed before each other's cursor, the newer one
  -- last.
  pub same_or_before :
      (orders : Orders) (o x : Order)
      → lookup o.order_number orders ≡ some o
      → lookup x.order_number orders ≡ some x
      → is_newer o x ≡ false
      → is_listed u wanted before o ≡ true
      → (o ≡ x) ⊎ (is_listed u wanted (cursor_of x) o ≡ true)
  unfolding is_newer is_listed
  same_or_before orders o x stored stored' late hit =
      let user : (o.user_id == u && is_wanted wanted o) ≡ true = ground (arith, hit) in
      elim (Bool-cases (o.order_number == x.order_number)) [
        | inl same ↦
            let at : o.order_number ≡ x.order_number =
              (eqb_ℤ_iff o.order_number x.order_number).0 same in
            let there : lookup o.order_number orders ≡ some x =
              subst (λ (k : ℤ). lookup k orders ≡ some x) (sym at) stored' in
            inl (ground (arith, stored, there))
        | inr other ↦
            let earlier : is_before (cursor_of x) o ≡ true = ground (arith, late, other) in
            inr (ground (arith, user, earlier))
      ]
