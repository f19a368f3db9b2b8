-- ===== src/Program.antt =====
-- app/program-service/internal: ticket categories, seats, and the purchase of tickets.
-- This file: domain/program/entities.go, inventory.go and strategy.go.
pub mod Pricing
pub mod Validation
pub mod Inventory
pub mod Idempotency
pub mod Creation
mod Tests
use ticket_hub.Common.{
  ◌==◌, int_eq, ◌||◌, ℤ, pos, String, Bool, true, false, not, Option, none, some, List, [], ◌∷◌,
  ltb, leb_ℤ, ltb_ℤ, eqb_ℤ, if◌then◌else◌, length, ◌++◌,
}
use ticket_hub.Errors.{Code, inventory_not_enough, seat_unavailable, new_error, Result, ok, err}

pub record TicketCategory : Type 0 where
  pub id : ℤ
  pub program_id : ℤ
  pub name : String
  pub price_cent : ℤ
  pub total : ℤ
  pub remain : ℤ
  pub sell_started : Bool

-- The constants of the string type `SeatStatus`, and any other text.
pub data SeatStatus : Type 0 where
  no_sold locked sold : SeatStatus
  other_seat : String → SeatStatus

pub record Seat : Type 0 where
  pub id : ℤ
  pub program_id : ℤ
  pub ticket_category_id : ℤ
  pub row_code : String
  pub col_code : String
  pub price_cent : ℤ
  pub status : SeatStatus

pub record CreateOrderCommand : Type 0 where
  pub request_id : String
  pub user_id : ℤ
  pub program_id : ℤ
  pub ticket_category_id : ℤ
  pub seat_ids : List ℤ
  pub ticket_user_ids : List ℤ

-- `CreateOrderCommand.TicketCount`
unfoldable pub ticket_count : CreateOrderCommand → ℤ
ticket_count c =
    if ltb 0 (length c.seat_ids) then pos (length c.seat_ids) else pos (length c.ticket_user_ids)

-- A Go map that is used as a set of numbers, as the list of them.
abbrev pub contains : ℤ → List ℤ → Bool
contains id [] = false
contains id (j ∷ ids) = j == id || contains id ids

-- `Seat.Lock`: the seat afterwards, and whether it was locked.
unfoldable pub lock : Seat → Seat × Bool
lock s = elim s.status [ no_sold ↦ (record s { status = locked }, true) | _ ↦ (s, false) ]

-- `Seat.ConfirmSold`
unfoldable pub confirm_sold : Seat → Seat × Bool
confirm_sold s = elim s.status [ locked ↦ (record s { status = sold }, true) | _ ↦ (s, false) ]

-- `Seat.Release`
unfoldable pub release : Seat → Seat × Bool
release s = elim s.status [ locked ↦ (record s { status = no_sold }, true) | _ ↦ (s, false) ]

-- `InventoryService.EnsureEnough`
unfoldable pub ensure_enough : TicketCategory → ℤ → Result (Unit {0})
ensure_enough category count =
    if leb_ℤ count (pos 0)
    then err (new_error Code.invalid_argument "ticket count must be positive")
    else if ltb_ℤ category.remain count
    then err (new_error inventory_not_enough "ticket remain number is not enough")
    else ok tt

-- The loop of `InventoryService.LockSeats`: the seats that are locked in the end, after `taken`.
unfoldable pub pick_seats : ℤ → List Seat → List Seat → List Seat
unfolding lock
pick_seats expected [] taken = taken
pick_seats expected (seat ∷ seats) taken =
    let rest = pick_seats expected seats (taken ++ ((lock seat).0 ∷ [])) in
    let skipped = pick_seats expected seats taken in
    if eqb_ℤ (pos (length taken)) expected then taken else if (lock seat).1 then rest else skipped

-- `InventoryService.LockSeats`
unfoldable pub lock_candidates : List Seat → ℤ → Result (List Seat)
unfolding pick_seats
lock_candidates seats expected =
    if ltb_ℤ (pos (length seats)) expected
    then err (new_error inventory_not_enough "not enough candidate seats")
    else if not (eqb_ℤ (pos (length (pick_seats expected seats []))) expected)
    then err (new_error seat_unavailable "seat is unavailable")
    else ok (pick_seats expected seats [])
