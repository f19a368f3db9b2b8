-- ===== src/Order/Queries/Tests.antt =====
-- Runs of the order queries, and the theorems on pages at concrete inputs.
use ticket_hub.Common.{
  ◌≤◌, ℤ, pos, String, ◌≡◌, refl, ◌⊎◌, true, Option, none, some, [], ◌∷◌, if◌then◌else◌, ◌==◌,
  nat_eq, string_eq, int_eq, length, All, Mem, ◌+ℤ◌,
}
use ticket_hub.Common.Dict.{lookup}
use ticket_hub.Common.Sort.{sort_by}
use ticket_hub.Errors.{ok}
use ticket_hub.Order.Domain.{Order, no_pay, new_order}
use ticket_hub.Order.Memory.{Orders, memory_store}
use ticket_hub.Order.Queries.{
  OrderListCursor, OrderPage, zero_cursor, parse_order_status, decode_order_cursor, cursor_of,
  list_page, is_listed, list_by_user_id_page,
}
use ticket_hub.Order.Queries.Asked.{HasStatus, IsPast, NewestFirst}
use ticket_hub.Order.Queries.Pages.{list_page_sound, list_page_covers}

abbrev order : ℤ → ℤ → Order
order n at = new_order n (pos 3) (pos 7) (pos 100) at

abbrev orders : Orders
orders =
    (pos 1, order (pos 1) (pos 50))
    ∷ (pos 2, order (pos 2) (pos 60))
    ∷ (pos 3, order (pos 3) (pos 50))
    ∷ []

-- Cursors that are known by two texts.
abbrev encode : OrderListCursor → String
encode c = if c.order_number == pos 3 then "three" else "other"

abbrev decode : String → Option OrderListCursor
decode text = if text == "three" then some (cursor_of (order (pos 3) (pos 50))) else none

abbrev first_page : OrderPage
first_page = record {
  items = order (pos 2) (pos 60) ∷ order (pos 3) (pos 50) ∷ [];
  next_cursor = some "three";
}

first_page_runs :
    list_page memory_store
      (some list_by_user_id_page)
      encode
      decode
      (pos 7)
      " no_pay"
      ""
      (pos 2)
      orders
    ≡ ok first_page
unfolding list_page list_by_user_id_page new_order ◌+ℤ◌ sort_by
first_page_runs = refl

-- The second page begins after the cursor of the first.
second_page_runs :
    list_page memory_store
      (some list_by_user_id_page)
      encode
      decode
      (pos 7)
      ""
      "three"
      (pos 2)
      orders
    ≡ ok (record { items = order (pos 1) (pos 50) ∷ []; next_cursor = none })
unfolding list_page list_by_user_id_page new_order ◌+ℤ◌ sort_by
second_page_runs = refl

-- The second page, after the cursor of the first one.
abbrev second_page : OrderPage
second_page = record { items = order (pos 1) (pos 50) ∷ []; next_cursor = none }

list_page_sound_example :
    All
      (λ (o : Order).
        ((n : ℤ) × Mem (n, o) orders)
        × (o.user_id ≡ pos 7)
        × HasStatus (some no_pay) o
        × IsPast (some (pos 50)) (pos 3) o)
      second_page.items
    × NewestFirst second_page.items
    × (length second_page.items ≤ 100)
unfolding list_page list_by_user_id_page new_order parse_order_status decode_order_cursor ◌+ℤ◌
    sort_by
list_page_sound_example =
    list_page_sound (pos 7) (some no_pay) (cursor_of (order (pos 3) (pos 50))) encode decode
      " no_pay" "three" (pos 2) orders second_page refl refl refl

list_page_covers_example :
    Mem (order (pos 1) (pos 50)) first_page.items
    ⊎ ((x : Order) × Mem x first_page.items
        × (first_page.next_cursor ≡ some (encode (cursor_of x)))
        × (is_listed (pos 7) (some no_pay) (cursor_of x) (order (pos 1) (pos 50)) ≡ true))
unfolding list_page list_by_user_id_page new_order parse_order_status decode_order_cursor lookup
    is_listed ◌+ℤ◌ sort_by
list_page_covers_example =
    list_page_covers (pos 7) (some no_pay) zero_cursor encode decode " no_pay" "" (pos 2) orders
      first_page refl refl refl (refl, (refl, (refl, tt))) (refl, (refl, (refl, tt)))
      (order (pos 1) (pos 50)) refl refl
