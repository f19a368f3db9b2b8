-- ===== src/Order/Queries/Pages.antt =====
-- app/order-service/internal/application/order_query.go over
-- infrastructure/memory/order_repository.go: what a page holds, and what is left for the next one.
use ticket_hub.Common.{
  All-and, ℕ, suc, ◌≤◌, ℤ, pos, String, ◌≡◌, refl, sym, ap, subst, ◌∙◌, ◌⊎◌, inl, inr, true, Option,
  some, arith, ltb, if◌then◌else◌, Bool-cases, nat_eq, string_eq, int_eq, length, take, length-take,
  All, Mem, All-imp, All-Mem, ◌+ℤ◌, leb_ℤ,
}
use ticket_hub.Common.Dict.{lookup, lookup-Mem, IsDistinct, distinct_found}
use ticket_hub.Common.Sort.{
  All-sort_by, sort_by-Mem, sort_by-IsOrdered, take-IsOrdered, take-rest, All-take,
}
use ticket_hub.Errors.{ok}
use ticket_hub.Order.Domain.{Order, Status}
use ticket_hub.Order.Domain
use ticket_hub.Order.Memory.{Orders, memory_store}
use ticket_hub.Order.Queries.{
  OrderListCursor, OrderPage, parse_order_status, decode_order_cursor, page_limit, cursor_of,
  page_of, list_page, is_listed, listed, is_newer, list_by_user_id_page,
}
use ticket_hub.Order.Queries.Asked.{
  HasStatus, IsPast, NewestFirst, is_listed-asked, IsOrdered-NewestFirst, All-each,
}
use ticket_hub.Order.Queries.Listing.{
  is_newer_asymm, is_newer_trans, page_limit-pos, last_of-Mem, front_page, whole_page, page_of-take,
  listed-All, listed-Mem, sorted, listed_items, same_or_before,
}

module _ (u : ℤ) (wanted : Option Domain.Status) (before : OrderListCursor) where
  module _ (encode : OrderListCursor → String) (decode : String → Option OrderListCursor)
      (status cursor : String) (limit : ℤ) (orders : Orders) (page : OrderPage)
      (reads_status : parse_order_status status ≡ ok wanted)
      (reads_cursor : decode_order_cursor decode cursor ≡ ok before)
      (answer : list_page memory_store
          (some list_by_user_id_page)
          encode
          decode
          u
          status
          cursor
          limit
          orders
        ≡ ok page) where
    list_page-page :
        (m : ℕ)
        → page_limit limit ≡ pos m
        → page ≡ (
            if ltb m (length (sorted u wanted before orders))
            then front_page encode m (sorted u wanted before orders)
            else whole_page (sorted u wanted before orders))
    unfolding list_page
    list_page-page m limited =
        let xs = sorted u wanted before orders in
        let items = if ltb (suc m) (length xs) then take (suc m) xs else xs in
        let found = listed_items u wanted before m orders in
        let found' : list_by_user_id_page u wanted before (page_limit limit +ℤ pos 1) orders
            ≡ ok items =
          subst (λ (k : ℤ). list_by_user_id_page u wanted before (k +ℤ pos 1) orders ≡ ok items)
            (sym limited) found in
        elim (Bool-cases (leb_ℤ u (pos 0))) [
          | inl nobody ↦ absurd (ground (arith, nobody, answer))
          | inr user ↦
              let made : page_of encode (page_limit limit) items ≡ page =
                ground (arith, user, reads_status, reads_cursor, found', answer) in
              sym made
              ∙ ap (λ (k : ℤ). page_of encode k items) limited
              ∙ page_of-take encode m xs items refl
        ]

    -- What every order of the sorted list satisfies.
    sorted-All :
        (P : Order → Type 0)
        → All (λ (e : ℤ × Order). P e.1) orders
        → All
            (λ (o : Order). P o × (is_listed u wanted before o ≡ true))
            (sorted u wanted before orders)
    sorted-All P a =
        All-sort_by is_newer (λ (o : Order). P o × (is_listed u wanted before o ≡ true))
          (listed u wanted before orders) (listed-All u wanted before P orders a)

    entries_found :
        All (λ (e : ℤ × Order). e.1.order_number ≡ e.0) orders
        → IsDistinct orders
        → All (λ (e : ℤ × Order). lookup e.1.order_number orders ≡ some e.1) orders
    entries_found keyed distinct =
        All-imp (λ (e : ℤ × Order). (e.1.order_number ≡ e.0) × (lookup e.0 orders ≡ some e.1))
          (λ (e : ℤ × Order). lookup e.1.order_number orders ≡ some e.1)
          (λ e h. subst (λ (k : ℤ). lookup k orders ≡ some e.1) (sym h.0) h.1) orders
          (All-and (λ (e : ℤ × Order). e.1.order_number ≡ e.0)
            (λ (e : ℤ × Order). lookup e.0 orders ≡ some e.1) orders keyed
            (distinct_found orders distinct))

    abbrev IsAsked : Order → Type 0
    IsAsked o =
        ((n : ℤ) × Mem (n, o) orders)
        × (o.user_id ≡ u)
        × HasStatus wanted o
        × IsPast before.created_at before.order_number o

    abbrev IsSound : OrderPage → Type 0
    IsSound p = All IsAsked p.items × NewestFirst p.items × (length p.items ≤ 100)

    sorted-IsAsked : All IsAsked (sorted u wanted before orders)
    sorted-IsAsked =
        All-imp
          (λ (o : Order). ((n : ℤ) × Mem (n, o) orders) × (is_listed u wanted before o ≡ true))
          IsAsked
          (λ o h.
            let (user, status, past) = is_listed-asked u wanted before o h.1 in
            (h.0, user, status, past))
          (sorted u wanted before orders)
          (sorted-All (λ (o : Order). (n : ℤ) × Mem (n, o) orders)
            (All-each (λ (e : ℤ × Order). (n : ℤ) × Mem (n, e.1) orders) orders (λ e m. (e.0, m))))

    abbrev Covers : Order → OrderPage → Type 0
    Covers o p =
        Mem o p.items
        ⊎ ((x : Order) × Mem x p.items
            × (p.next_cursor ≡ some (encode (cursor_of x)))
            × (is_listed u wanted (cursor_of x) o ≡ true))

    -- A page that is answered from the repository in memory, where the status is read as `wanted` and
    -- the cursor as `before`, holds only stored orders of the user `u`, that have the wanted status if
    -- there is one, and that were made before the time of the cursor, or at that time with a smaller
    -- number, if the cursor has a time. Each is made after the next one, or at the same time with a
    -- number that is no smaller, and there are at most 100 of them.
    pub list_page_sound :
        All
          (λ (o : Order).
            ((n : ℤ) × Mem (n, o) orders)
            × (o.user_id ≡ u)
            × HasStatus wanted o
            × IsPast before.created_at before.order_number o)
          page.items
        × NewestFirst page.items
        × (length page.items ≤ 100)
    list_page_sound =
        let (m, limited, least, most) = page_limit-pos limit in
        let xs = sorted u wanted before orders in
        let hits = sorted-IsAsked in
        let ordered = sort_by-IsOrdered is_newer is_newer_asymm (listed u wanted before orders) in
        subst IsSound (sym (list_page-page m limited)) (elim (Bool-cases (ltb m (length xs))) [
          | inl longer ↦ rw longer (
            All-take IsAsked m xs hits,
            IsOrdered-NewestFirst (take m xs) (take-IsOrdered is_newer m xs ordered),
            ground (arith, most, length-take m xs),
          )
          | inr short ↦
              rw short (hits, IsOrdered-NewestFirst xs ordered, ground (arith, most, short))
        ])

    -- Where a page is answered from the repository in memory, with the status read as `wanted` and
    -- the cursor as `before`, and the repository keeps each order once and under its number: a
    -- stored order of the user with that status, if there is one, and before that cursor is on the
    -- page, or the page has a cursor for the next one, made of an order of its own, and the order
    -- is before it.
    pub list_page_covers :
        All (λ (e : ℤ × Order). e.1.order_number ≡ e.0) orders
        → IsDistinct orders
        → (o : Order) → lookup o.order_number orders ≡ some o
        → is_listed u wanted before o ≡ true
        → Mem o page.items
          ⊎ ((x : Order) × Mem x page.items
              × (page.next_cursor ≡ some (encode (cursor_of x)))
              × (is_listed u wanted (cursor_of x) o ≡ true))
    list_page_covers keyed distinct o stored hit =
        let (m, limited, least, most) = page_limit-pos limit in
        let xs = sorted u wanted before orders in
        let here : Mem o xs = sort_by-Mem is_newer o (listed u wanted before orders) (
          listed-Mem u wanted before o.order_number o orders
            (lookup-Mem o.order_number orders stored) hit) in
        let IsStored : Order → Type 0 = λ y. lookup y.order_number orders ≡ some y in
        let each_found : All (λ (y : Order). IsStored y × (is_listed u wanted before y ≡ true)) xs =
          sorted-All IsStored (entries_found keyed distinct) in
        let is_stored : (y : Order) → Mem y (take m xs) → IsStored y = λ y k.
          (All-Mem (λ (z : Order). IsStored z × (is_listed u wanted before z ≡ true)) y (take m xs)
            (All-take (λ (z : Order). IsStored z × (is_listed u wanted before z ≡ true)) m xs
              each_found)
            k).0 in
        subst (Covers o) (sym (list_page-page m limited)) (elim (Bool-cases (ltb m (length xs))) [
          | inr short ↦ rw short (inl here)
          | inl longer ↦
              let (x, last, there) =
                last_of-Mem (take m xs) (ground (arith, least, longer, length-take m xs)) in
              rw longer
                (elim (take-rest is_newer is_newer_trans m xs o x
                  (sort_by-IsOrdered is_newer is_newer_asymm (listed u wanted before orders)) here
                  there) [
                    | inl front ↦ inl front
                    | inr late ↦
                        elim (same_or_before u wanted before orders o x stored (is_stored x there)
                          late hit) [
                            | inl same ↦
                                inl (subst (λ (t : Order). Mem t (take m xs)) (sym same) there)
                            | inr earlier ↦ inr (x, there, ground (arith, last), earlier)
                          ]
                  ])
        ])
