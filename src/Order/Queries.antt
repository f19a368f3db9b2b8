-- ===== src/Order/Queries.antt =====
-- app/order-service/internal/application/order_query.go, and the pages of
-- infrastructure/memory/order_repository.go. The text of a cursor, which is base64 of json, is made
-- and read by parameters.
pub mod Listing
pub mod Asked
pub mod Pages
mod Tests
use ticket_hub.Common.{
  ℕ, zero, suc, ◌+◌, ◌-◌, ◌*◌, ◌/◌, ◌%◌, ◌^◌, ◌≤◌, ◌<◌, ℤ, pos, negsuc, String, ◌≡◌, ◌≢◌, refl, sym,
  ap, subst, ◌∙◌, ◌↔◌, ◌⊎◌, inl, inr, Bool, true, false, not, ◌&&◌, ◌||◌, Option, none, some, List,
  [], ◌∷◌, ◌++◌, map, arith, ltb, leb, nat_eqb, if◌then◌else◌, Bool-cases, Option-cases, Eq, ◌==◌,
  nat_eq, string_eq, int_eq, ==_refl, ==_ne, length, get_elem?, take, length-append, length-take,
  All, Mem, All-imp, All-append, All-map, All-Mem, map-Mem, pos_part, neg_part, sub_ℕ, ◌+ℤ◌, ◌-ℤ◌,
  ◌*ℤ◌, ◌≤ℤ◌, ◌<ℤ◌, ltb_ℤ, leb_ℤ, eqb_ℤ, eq_of_parts, eqb_ℤ_iff, +ℤ_parts, -ℤ_parts, int_laws,
  IsInt64, wrap64, wrap64_id, wrap64-IsInt64, add64, sub64, mul64, quotient, remainder,
  quotient_nonneg, remainder_nonneg, bits64, neg_part-zero, pos_of, add64-pos, mul64-pos,
}
use ticket_hub.Common.Dict.{Dict}
use ticket_hub.Common.Fmt.{trim_left, trim_right, upper_equals}
use ticket_hub.Common.Sort.{sort_by}
use ticket_hub.Errors.{Code, GoError, infrastructure, new_error, Result, ok, err}
use ticket_hub.Order.Domain.{Order, no_pay, paid, cancel, refund, other_status}
use ticket_hub.Order.Domain
use ticket_hub.Order.Memory.{Orders}
use ticket_hub.Order.Store.{OrderStore}

-- The zero time is `none`.
pub record OrderListCursor : Type 0 where
  pub created_at : Option ℤ
  pub order_number : ℤ

abbrev pub zero_cursor : OrderListCursor
zero_cursor = record { created_at = none; order_number = pos 0 }

-- `NextCursor` is the empty text where there is no further page: `none`.
pub record OrderPage : Type 0 where
  pub items : List Order
  pub next_cursor : Option String

-- `orderPageRepository`; a status of `none` stands for the empty text.
abbrev pub PageRepository : Type 0 → Type 0
PageRepository S = ℤ → Option Domain.Status → OrderListCursor → ℤ → S → Result (List Order)

-- The text of a status.
abbrev pub status_text : Domain.Status → String
status_text no_pay = "NO_PAY"
status_text paid = "PAY"
status_text cancel = "CANCEL"
status_text refund = "REFUND"
status_text (other_status s) = s

-- `parseOrderStatus`
unfoldable pub parse_order_status : String → Result (Option Domain.Status)
unfolding upper_equals trim_left trim_right
parse_order_status value =
    let status = trim_right (trim_left value) in
    if status == ""
    then ok none
    else if upper_equals status "NO_PAY"
    then ok (some no_pay)
    else if upper_equals status "PAY"
    then ok (some paid)
    else if upper_equals status "CANCEL"
    then ok (some cancel)
    else if upper_equals status "REFUND"
    then ok (some refund)
    else err (new_error Code.invalid_argument "invalid order status")

-- `decodeOrderCursor`; `decode` reads the fields of a text that is not empty.
unfoldable pub decode_order_cursor :
    (String → Option OrderListCursor) → String → Result OrderListCursor
unfolding trim_left trim_right
decode_order_cursor decode value =
    let text = trim_right (trim_left value) in
    if text == "" then ok zero_cursor else elim (decode text) [
      | none ↦ err (new_error Code.invalid_argument "invalid order cursor")
      | some c ↦
          if leb_ℤ c.order_number (pos 0)
          then err (new_error Code.invalid_argument "invalid order cursor")
          else ok c
    ]

-- The limit of a page.
unfoldable pub page_limit : ℤ → ℤ
page_limit limit =
    let given = if leb_ℤ limit (pos 0) then pos 20 else limit in
    if ltb_ℤ (pos 100) given then pos 100 else given

unfoldable pub last_of : {A : Type 0} → List A → Option A
last_of [] = none
last_of (x ∷ xs) = elim (last_of xs) [ none ↦ some x | some y ↦ some y ]

abbrev pub cursor_of : Order → OrderListCursor
cursor_of o = record { created_at = some o.created_at; order_number = o.order_number }

-- The page that is cut from the items found, which are one more than the limit if there are further
-- ones.
unfoldable pub page_of : (OrderListCursor → String) → ℤ → List Order → OrderPage
unfolding last_of
page_of encode limit items =
    if ltb_ℤ limit (pos (length items))
    then (let front = take (pos_part limit) items in
        record {
          items = front;
          next_cursor = elim (last_of front) [ none ↦ none | some o ↦ some (encode (cursor_of o)) ];
        })
    else record { items = items; next_cursor = none }

module _ {S : Type 0} (orders : OrderStore S) (pages : Option (PageRepository S))
    (encode : OrderListCursor → String) (decode : String → Option OrderListCursor) where
  -- `Get`
  unfoldable pub get : ℤ → ℤ → S → Result Order
  get n u s =
      if leb_ℤ n (pos 0) || leb_ℤ u (pos 0)
      then err (new_error Code.invalid_argument "order_number and user_id are required")
      else orders.find n u s

  -- `ListPage`
  unfoldable pub list_page : ℤ → String → String → ℤ → S → Result OrderPage
  unfolding parse_order_status decode_order_cursor page_limit page_of
  list_page u status cursor limit s =
      if leb_ℤ u (pos 0)
      then err (new_error Code.invalid_argument "user_id is required")
      else elim (parse_order_status status) [
        | err e ↦ err e
        | ok wanted ↦ elim (decode_order_cursor decode cursor) [
          | err e ↦ err e
          | ok before ↦ elim pages [
            | none ↦ err (new_error infrastructure "order page repository is not configured")
            | some list ↦ elim (list u wanted before (page_limit limit +ℤ pos 1) s) [
              | err e ↦ err e
              | ok items ↦ ok (page_of encode (page_limit limit) items)
            ]
          ]
        ]
      ]

-- The test of `ListByUserIDPage`: the user, the status if one is wanted, and the place before a
-- cursor.
abbrev pub is_wanted : Option Domain.Status → Order → Bool
is_wanted none o = true
is_wanted (some s) o = status_text o.status == status_text s

abbrev pub is_before : OrderListCursor → Order → Bool
is_before c o = elim c.created_at [
  | none ↦ true
  | some t ↦ ltb_ℤ o.created_at t || (o.created_at == t && ltb_ℤ o.order_number c.order_number)
]

unfoldable pub is_listed : ℤ → Option Domain.Status → OrderListCursor → Order → Bool
is_listed u wanted before o = o.user_id == u && is_wanted wanted o && is_before before o

unfoldable pub listed : ℤ → Option Domain.Status → OrderListCursor → Orders → List Order
unfolding is_listed
listed u wanted before [] = []
listed u wanted before ((n, o) ∷ orders) =
    let rest = listed u wanted before orders in
    if is_listed u wanted before o then o ∷ rest else rest

-- The comparison of the sort: the newest first, then the greatest number.
unfoldable pub is_newer : Order → Order → Bool
is_newer a b =
    if a.created_at == b.created_at
    then ltb_ℤ b.order_number a.order_number
    else ltb_ℤ b.created_at a.created_at

-- `ListByUserIDPage`
unfoldable pub list_by_user_id_page : PageRepository Orders
unfolding listed is_newer
list_by_user_id_page u wanted before limit orders =
    let result = sort_by is_newer (listed u wanted before orders) in
    ok (if ltb_ℤ limit (pos (length result)) then take (pos_part limit) result else result)
