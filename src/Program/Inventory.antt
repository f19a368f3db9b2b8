-- ===== src/Program/Inventory.antt =====
-- app/program-service/internal/infrastructure/memory/inventory.go. Each method is one critical
-- section.
use ticket_hub.Common.{
  ℕ, zero, suc, ◌+◌, ◌-◌, ◌*◌, ◌/◌, ◌%◌, ◌^◌, ◌≤◌, ◌<◌, ℤ, pos, negsuc, String, ◌≡◌, ◌≢◌, refl, sym,
  ap, subst, ◌∙◌, ◌↔◌, ◌⊎◌, inl, inr, Bool, true, false, not, ◌&&◌, ◌||◌, Option, none, some, List,
  [], ◌∷◌, ◌++◌, map, arith, ltb, leb, nat_eqb, if◌then◌else◌, Bool-cases, Option-cases, Eq, ◌==◌,
  nat_eq, string_eq, int_eq, ==_refl, ==_ne, length, get_elem?, take, length-append, length-take,
  All, Mem, pos_part, neg_part, sub_ℕ, ◌+ℤ◌, ◌-ℤ◌, ◌*ℤ◌, ◌≤ℤ◌, ◌<ℤ◌, ltb_ℤ, leb_ℤ, eqb_ℤ,
  eq_of_parts, eqb_ℤ_iff, +ℤ_parts, -ℤ_parts, int_laws, IsInt64, wrap64, wrap64_id, wrap64-IsInt64,
  add64, sub64, mul64, quotient, remainder, quotient_nonneg, remainder_nonneg, bits64,
  neg_part-zero, pos_of, add64-pos, mul64-pos,
}
use ticket_hub.Common.Dict.{Dict, lookup, insert, erase, lookup-insert, lookup-erase}
use ticket_hub.Errors.{
  Code, inventory_not_enough, seat_unavailable, GoError, new_error, Result, ok, err, Result-cases,
}
use ticket_hub.Action.{Action}
use ticket_hub.Program.{
  SeatStatus, no_sold, locked, sold, other_seat, Seat, CreateOrderCommand, ticket_count,
}
pub mod Laws

pub record InventoryLocker : Type 0 where
  pub remain : Dict ℤ ℤ
  pub seat_map : Dict ℤ SeatStatus

-- `NewInventoryLocker`
unfoldable pub new_inventory_locker : InventoryLocker
new_inventory_locker = record { remain = []; seat_map = [] }

-- `l.remain[id]`, where a missing key reads as 0.
unfoldable pub remain_of : InventoryLocker → ℤ → ℤ
remain_of l id = elim (lookup id l.remain) [ none ↦ pos 0 | some r ↦ r ]

-- `Seed` and `SetRemain`
unfoldable pub set_remain : ℤ → ℤ → InventoryLocker → InventoryLocker
set_remain id r l = record l { remain = insert id r l.remain }

-- `GetRemain`
unfoldable pub get_remain : ℤ → InventoryLocker → Option ℤ
get_remain id l = lookup id l.remain

-- `InitializeRemain`: whether the number was set.
unfoldable pub initialize_remain : ℤ → ℤ → InventoryLocker → Bool × InventoryLocker
unfolding set_remain
initialize_remain id r l = elim (lookup id l.remain) [
  | some old ↦ (false, l)
  | none ↦ (true, set_remain id r l)
]

-- `l.seatMap[id] == SeatLocked || l.seatMap[id] == SeatSold`
abbrev pub is_taken : Option SeatStatus → Bool
is_taken (some locked) = true
is_taken (some sold) = true
is_taken s = false

abbrev pub is_locked : Option SeatStatus → Bool
is_locked (some locked) = true
is_locked s = false

-- The loop that looks for a seat that is not to be had.
unfoldable pub any_taken : List ℤ → Dict ℤ SeatStatus → Bool
any_taken [] seats = false
any_taken (id ∷ ids) seats = is_taken (lookup id seats) || any_taken ids seats

-- The loop that locks the seats.
unfoldable pub lock_all : List ℤ → Dict ℤ SeatStatus → Dict ℤ SeatStatus
lock_all [] seats = seats
lock_all (id ∷ ids) seats = lock_all ids (insert id locked seats)

-- The seats that the loop gives back.
unfoldable pub locked_seats : CreateOrderCommand → List ℤ → List Seat
locked_seats cmd [] = []
locked_seats cmd (id ∷ ids) =
    record {
      id = id;
      program_id = cmd.program_id;
      ticket_category_id = cmd.ticket_category_id;
      row_code = "";
      col_code = "";
      price_cent = pos 0;
      status = locked;
    }
    ∷ locked_seats cmd ids

-- `LockSeats`
unfoldable pub lock_seats : CreateOrderCommand → Action InventoryLocker (List Seat)
unfolding remain_of
lock_seats cmd l =
    let count = ticket_count cmd in
    if leb_ℤ count (pos 0)
    then (err (new_error Code.invalid_argument "ticket user or seat is required"), l)
    else if ltb_ℤ (remain_of l cmd.ticket_category_id) count
    then (err (new_error inventory_not_enough "ticket inventory is not enough"), l)
    else if any_taken cmd.seat_ids l.seat_map
    then (err (new_error seat_unavailable "seat is unavailable"), l)
    else (
      ok (locked_seats cmd cmd.seat_ids),
      record {
        remain =
            insert cmd.ticket_category_id (sub64 (remain_of l cmd.ticket_category_id) count)
              l.remain;
        seat_map = lock_all cmd.seat_ids l.seat_map;
      },
    )

-- The loop of `RollbackSeats`.
unfoldable pub release_all : List ℤ → Dict ℤ SeatStatus → Dict ℤ SeatStatus
release_all [] seats = seats
release_all (id ∷ ids) seats =
    release_all ids (if is_locked (lookup id seats) then erase id seats else seats)

-- `RollbackSeats`
unfoldable pub rollback_seats : CreateOrderCommand → Action InventoryLocker (Unit {0})
unfolding remain_of
rollback_seats cmd l = (
  ok tt,
  record {
    remain =
        insert cmd.ticket_category_id
          (add64 (remain_of l cmd.ticket_category_id) (ticket_count cmd)) l.remain;
    seat_map = release_all cmd.seat_ids l.seat_map;
  },
)
