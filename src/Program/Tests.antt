-- ===== src/Program/Tests.antt =====
-- Runs of the purchase rules and of the inventory, and the theorems on them at concrete inputs.
use ticket_hub.Common.{
  ◌-◌, ◌≤◌, ◌<◌, ℤ, pos, String, ◌≡◌, refl, ◌↔◌, ◌⊎◌, Bool, true, false, Option, none, some, List,
  [], ◌∷◌, arith, if◌then◌else◌, ◌==◌, nat_eq, string_eq, int_eq, All, Mem, pos_part, ◌*ℤ◌, ◌<ℤ◌,
  IsInt64, wrap64, quotient,
}
use ticket_hub.Common.Dict.{lookup}
use ticket_hub.Errors.{Result, ok, err, inventory_not_enough, new_error}
use ticket_hub.Program.{
  TicketCategory, locked, no_sold, sold, SeatStatus, Seat, CreateOrderCommand, ticket_count,
  contains,
}
use ticket_hub.Program.Pricing.{
  calculate_amount, calculate_amount_exact, CategorySource, IsPriced, price_from, price_category,
}
use ticket_hub.Program.Validation.{
  Program as Performance, PurchaseCatalog, validate_structure, validate_catalog, validate_ownership,
  duplicate_int64, duplicate_from, check_category, check_seats, available_ids, all_inside,
}
use ticket_hub.Program.Validation.Structure.{IsWellFormed, validate_structure_iff}
use ticket_hub.Program.Validation.Sources.{
  IsOnSale, IsAvailable, Rule, validate_catalog_sound, validate_ownership_sound,
}
use ticket_hub.Program.Inventory.{
  InventoryLocker, remain_of, is_taken, lock_seats, rollback_seats, locked_seats, any_taken,
}
use ticket_hub.Program.Inventory.Laws.{lock_seats_takes, rollback_seats-lock_seats}

abbrev purchase : CreateOrderCommand
purchase = record {
  request_id = "request-1";
  user_id = pos 7;
  program_id = pos 3;
  ticket_category_id = pos 2;
  seat_ids = pos 8 ∷ pos 9 ∷ [];
  ticket_user_ids = pos 5 ∷ pos 6 ∷ [];
}

abbrev stalls : TicketCategory
stalls = record {
  id = pos 2;
  program_id = pos 3;
  name = "stalls";
  price_cent = pos 4950;
  total = pos 100;
  remain = pos 3;
  sell_started = true;
}

abbrev source : CategorySource
source n = ok (stalls ∷ [])

price_runs : calculate_amount source purchase ≡ ok (pos 9900)
unfolding calculate_amount price_from price_category ticket_count quotient wrap64 ◌*ℤ◌
price_runs = refl

calculate_amount_exact_example :
    (items : List TicketCategory) × (source (pos 3) ≡ ok items)
    × (pos 0 <ℤ ticket_count purchase)
    × IsPriced items (pos 2) (ticket_count purchase) (pos 9900)
calculate_amount_exact_example = calculate_amount_exact source purchase (pos 9900) price_runs

structure_runs : validate_structure (pos 6) purchase ≡ ok tt
unfolding validate_structure ticket_count duplicate_int64 duplicate_from
structure_runs = refl

validate_structure_iff_example :
    (validate_structure (pos 6) purchase ≡ ok tt) ↔ IsWellFormed (pos 6) purchase
validate_structure_iff_example = validate_structure_iff (pos 6) purchase

abbrev seat : ℤ → SeatStatus → Seat
seat n s = record {
  id = n;
  program_id = pos 3;
  ticket_category_id = pos 2;
  row_code = "A";
  col_code = "1";
  price_cent = pos 4950;
  status = s;
}

abbrev catalog : PurchaseCatalog
catalog = record {
  find_program = λ n. ok (record {
    id = n;
    title = "Hamlet";
    city = "Berlin";
    place = "Hall";
    show_time = pos 0;
    status = "ON_SALE";
  });
  list_ticket_categories = source;
  list_seats = λ n c. ok (seat (pos 7) sold ∷ seat (pos 8) no_sold ∷ seat (pos 9) no_sold ∷ []);
}

abbrev same_text : String → String → Bool
same_text a b = a == b

catalog_runs : validate_catalog same_text catalog purchase ≡ ok tt
unfolding validate_catalog check_category check_seats available_ids all_inside
catalog_runs = refl

validate_catalog_sound_example :
    (current : Performance) × (catalog.find_program (pos 3) ≡ ok current)
    × (same_text current.status "ON_SALE" ≡ true)
    × (categories : List TicketCategory) × (source (pos 3) ≡ ok categories)
    × IsOnSale purchase categories
    × ((purchase.seat_ids ≡ [])
        ⊎ ((seats : List Seat) × (catalog.list_seats (pos 3) (pos 2) ≡ ok seats)
            × All (IsAvailable purchase seats) purchase.seat_ids))
validate_catalog_sound_example = validate_catalog_sound same_text catalog purchase catalog_runs

abbrev owners : Option (ℤ → Result (List ℤ))
owners = some (λ u. ok (pos 4 ∷ pos 5 ∷ pos 6 ∷ []))

ownership_runs : validate_ownership owners purchase ≡ ok tt
unfolding validate_ownership all_inside
ownership_runs = refl

validate_ownership_sound_example :
    (list : ℤ → Result (List ℤ)) × (owners ≡ some list)
    × (owned : List ℤ) × (list (pos 7) ≡ ok owned)
    × All (λ id. Mem id owned) purchase.ticket_user_ids
validate_ownership_sound_example = validate_ownership_sound owners purchase ownership_runs

abbrev rules : List (Option Rule)
rules = some (validate_structure (pos 6)) ∷ none ∷ some (validate_ownership owners) ∷ []

abbrev stock : InventoryLocker
stock = record { remain = (pos 2, pos 3) ∷ (pos 4, pos 50) ∷ []; seat_map = (pos 7, sold) ∷ [] }

abbrev empty_stock : InventoryLocker
empty_stock = record { remain = (pos 2, pos 1) ∷ []; seat_map = [] }

lock_refused :
    (lock_seats purchase empty_stock).0
    ≡ err (new_error inventory_not_enough "ticket inventory is not enough")
unfolding lock_seats ticket_count remain_of lookup
lock_refused = refl

lock_runs : (lock_seats purchase stock).0 ≡ ok (locked_seats purchase (pos 8 ∷ pos 9 ∷ []))
unfolding lock_seats ticket_count remain_of lookup any_taken
lock_runs = refl

stock-IsInt64 : IsInt64 (remain_of stock (pos 2))
unfolding remain_of lookup
stock-IsInt64 = omega arith

lock_seats_takes_example :
    let l' = (lock_seats purchase stock).1 in
    let left = pos_part (remain_of stock (pos 2)) in
    let count = pos_part (ticket_count purchase) in
    (0 < count)
    × (count ≤ left)
    × ((id : ℤ)
        → remain_of l' id ≡ (if pos 2 == id then pos (left - count) else remain_of stock id))
    × ((id : ℤ)
        → (contains id purchase.seat_ids ≡ true → is_taken (lookup id stock.seat_map) ≡ false)
          × (lookup id l'.seat_map
              ≡ (if contains id purchase.seat_ids then some locked else lookup id stock.seat_map)))
lock_seats_takes_example =
    lock_seats_takes purchase stock (locked_seats purchase (pos 8 ∷ pos 9 ∷ [])) stock-IsInt64
      lock_runs

rollback_seats-lock_seats_example :
    let l'' = (rollback_seats purchase (lock_seats purchase stock).1).1 in
    ((id : ℤ) → remain_of l'' id ≡ remain_of stock id)
    × ((id : ℤ) → is_taken (lookup id l''.seat_map) ≡ is_taken (lookup id stock.seat_map))
rollback_seats-lock_seats_example =
    rollback_seats-lock_seats purchase stock (locked_seats purchase (pos 8 ∷ pos 9 ∷ []))
      stock-IsInt64 lock_runs
