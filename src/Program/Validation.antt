-- ===== src/Program/Validation.antt =====
-- app/program-service/internal/application/purchase_validation.go. What the rules read of other
-- services is given by the answers of those services; strings.EqualFold is a parameter.
use ticket_hub.Common.{
  ℕ, zero, suc, ◌+◌, ◌-◌, ◌*◌, ◌/◌, ◌%◌, ◌^◌, ◌≤◌, ◌<◌, ℤ, pos, negsuc, String, ◌≡◌, ◌≢◌, refl, sym,
  ap, subst, ◌∙◌, ◌↔◌, ◌⊎◌, inl, inr, Bool, true, false, not, ◌&&◌, ◌||◌, Option, none, some, List,
  [], ◌∷◌, ◌++◌, map, arith, ltb, leb, nat_eqb, if◌then◌else◌, Bool-cases, Option-cases, Eq, ◌==◌,
  nat_eq, string_eq, int_eq, ==_refl, ==_ne, length, get_elem?, take, length-append, length-take,
  All, Mem, pos_part, neg_part, sub_ℕ, ◌+ℤ◌, ◌-ℤ◌, ◌*ℤ◌, ◌≤ℤ◌, ◌<ℤ◌, ltb_ℤ, leb_ℤ, eqb_ℤ,
  eq_of_parts, eqb_ℤ_iff, +ℤ_parts, -ℤ_parts, int_laws, IsInt64, wrap64, wrap64_id, wrap64-IsInt64,
  add64, sub64, mul64, quotient, remainder, quotient_nonneg, remainder_nonneg, bits64,
  neg_part-zero, pos_of, add64-pos, mul64-pos,
}
use ticket_hub.Errors.{
  Code, forbidden, conflict, duplicate_submission, seat_unavailable, infrastructure, new_error,
  Result, ok, err, Result-cases, GoError,
}
use ticket_hub.Program.{
  TicketCategory, SeatStatus, no_sold, Seat, CreateOrderCommand, ticket_count, contains,
}
pub mod Structure
pub mod Sources

-- The loop of `duplicateInt64`, after the numbers in `seen`.
unfoldable pub duplicate_from : List ℤ → List ℤ → Bool
duplicate_from [] seen = false
duplicate_from (v ∷ vs) seen = leb_ℤ v (pos 0) || (contains v seen || duplicate_from vs (v ∷ seen))

-- `duplicateInt64`
unfoldable pub duplicate_int64 : List ℤ → Bool
duplicate_int64 vs = duplicate_from vs []

-- `NewPurchaseStructureRule`: the most tickets that an order may have.
unfoldable pub max_tickets_of : ℤ → ℤ
max_tickets_of max_tickets = if leb_ℤ max_tickets (pos 0) then pos 6 else max_tickets

-- `PurchaseStructureRule.Validate`
unfoldable pub validate_structure : ℤ → CreateOrderCommand → Result (Unit {0})
validate_structure max_tickets cmd =
    let count = ticket_count cmd in
    if leb_ℤ cmd.user_id (pos 0)
      || (leb_ℤ cmd.program_id (pos 0) || leb_ℤ cmd.ticket_category_id (pos 0))
    then err
        (new_error Code.invalid_argument "user_id, program_id and ticket_category_id are required")
    else if leb_ℤ count (pos 0)
    then err (new_error Code.invalid_argument "ticket user is required")
    else if ltb_ℤ max_tickets count
    then err (new_error Code.invalid_argument "ticket count exceeds per-order limit")
    else if not (eqb_ℤ (pos (length cmd.ticket_user_ids)) count)
    then err (new_error Code.invalid_argument "ticket user count must equal ticket count")
    else if duplicate_int64 cmd.ticket_user_ids
    then err (new_error duplicate_submission "ticket user is duplicated")
    else if duplicate_int64 cmd.seat_ids
    then err (new_error duplicate_submission "seat is duplicated")
    else ok tt

pub record Program : Type 0 where
  pub id : ℤ
  pub title : String
  pub city : String
  pub place : String
  pub show_time : ℤ
  pub status : String

-- `PurchaseCatalog`
pub record PurchaseCatalog : Type 0 where
  pub find_program : ℤ → Result Program
  pub list_ticket_categories : ℤ → Result (List TicketCategory)
  pub list_seats : ℤ → ℤ → Result (List Seat)

-- The loop that looks for the category.
unfoldable pub check_category : CreateOrderCommand → List TicketCategory → Result (Unit {0})
check_category cmd [] = err (new_error Code.not_found "ticket category not found")
check_category cmd (c ∷ cs) =
    let rest = check_category cmd cs in
    if not (c.id == cmd.ticket_category_id && c.program_id == cmd.program_id)
    then rest
    else if not c.sell_started
    then err (new_error conflict "ticket category is not on sale")
    else ok tt

abbrev pub is_no_sold : SeatStatus → Bool
is_no_sold no_sold = true
is_no_sold s = false

-- The map `available`.
unfoldable pub available_ids : CreateOrderCommand → List Seat → List ℤ
available_ids cmd [] = []
available_ids cmd (s ∷ ss) =
    let rest = available_ids cmd ss in
    if s.program_id == cmd.program_id
      && (s.ticket_category_id == cmd.ticket_category_id && is_no_sold s.status)
    then s.id ∷ rest
    else rest

-- A loop that fails on the first number outside of a set.
unfoldable pub all_inside : GoError → List ℤ → List ℤ → Result (Unit {0})
all_inside e inside [] = ok tt
all_inside e inside (id ∷ ids) =
    let rest = all_inside e inside ids in if contains id inside then rest else err e

abbrev pub seat_refused : GoError
seat_refused =
    new_error seat_unavailable
      "seat does not belong to the selected program and category or is unavailable"

abbrev pub user_refused : GoError
user_refused = new_error forbidden "ticket user does not belong to authenticated user"

-- The part of `PurchaseCatalogRule.Validate` on the seats.
unfoldable pub check_seats : PurchaseCatalog → CreateOrderCommand → Result (Unit {0})
check_seats catalog cmd =
    if nat_eqb (length cmd.seat_ids) 0
    then ok tt
    else elim (catalog.list_seats cmd.program_id cmd.ticket_category_id) [
      | err e ↦ err e
      | ok seats ↦ all_inside seat_refused (available_ids cmd seats) cmd.seat_ids
    ]

-- `PurchaseCatalogRule.Validate`
unfoldable pub validate_catalog :
    (String → String → Bool) → PurchaseCatalog → CreateOrderCommand → Result (Unit {0})
validate_catalog equal_fold catalog cmd = elim (catalog.find_program cmd.program_id) [
  | err e ↦ err e
  | ok current ↦
      if not (equal_fold current.status "ON_SALE")
      then err (new_error conflict "program is not on sale")
      else elim (catalog.list_ticket_categories cmd.program_id) [
        | err e ↦ err e
        | ok categories ↦ elim (check_category cmd categories) [
          | err e ↦ err e
          | ok u ↦ check_seats catalog cmd
        ]
      ]
]

-- `TicketUserOwnershipRule.Validate`; the source may be nil.
unfoldable pub validate_ownership :
    Option (ℤ → Result (List ℤ)) → CreateOrderCommand → Result (Unit {0})
validate_ownership none cmd =
    err (new_error infrastructure "ticket user ownership source is not configured")
validate_ownership (some list_ticket_user_ids) cmd = elim (list_ticket_user_ids cmd.user_id) [
  | err e ↦ err e
  | ok owned ↦ all_inside user_refused owned cmd.ticket_user_ids
]

-- `PurchaseValidationPipeline.Validate`; a rule may be nil.
unfoldable pub validate_all :
    List (Option (CreateOrderCommand → Result (Unit {0}))) → CreateOrderCommand → Result (Unit {0})
validate_all [] cmd = ok tt
validate_all (none ∷ rules) cmd = validate_all rules cmd
validate_all (some rule ∷ rules) cmd = elim (rule cmd) [
  | err e ↦ err e
  | ok u ↦ validate_all rules cmd
]
