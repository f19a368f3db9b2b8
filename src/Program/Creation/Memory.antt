-- ===== src/Program/Creation/Memory.antt =====
-- app/program-service/internal/infrastructure/memory/inventory.go: the inventory in memory keeps
-- what the creation of orders relies on.
use ticket_hub.Common.{ℤ, ◌≡◌, refl, ap, nat_eq, string_eq, int_eq, IsInt64}
use ticket_hub.Common.Dict.{lookup}
use ticket_hub.Program.Inventory.{InventoryLocker, remain_of, is_taken, lock_seats, rollback_seats}
use ticket_hub.Program.Inventory.Laws.{lock_seats_failed, rollback_seats-lock_seats}
use ticket_hub.Program.Creation.{CreateOrderUsecase}
use ticket_hub.Program.Creation.Outcomes.{IsInventory}

-- The numbers of tickets are `int64`.
abbrev pub IsStock : InventoryLocker → Type 0
IsStock l = (id : ℤ) → IsInt64 (remain_of l id)

-- As many tickets of each category remain, and the same seats are to be had.
abbrev pub SameStock : InventoryLocker → InventoryLocker → Type 0
SameStock l l' =
    ((id : ℤ) → remain_of l' id ≡ remain_of l id)
    × ((id : ℤ) → is_taken (lookup id l'.seat_map) ≡ is_taken (lookup id l.seat_map))

-- The use case over the inventory in memory, which does not look at the numbers of the order.
abbrev pub with_memory_inventory :
    {T K N V E : Type 0} → CreateOrderUsecase T K N V E → CreateOrderUsecase T K N InventoryLocker E
with_memory_inventory u = record {
  validator = u.validator;
  rate_limiter = u.rate_limiter;
  begin = u.begin;
  complete = u.complete;
  abort = u.abort;
  calculate_amount = u.calculate_amount;
  next_order_number = u.next_order_number;
  next_id = u.next_id;
  lock_seats = λ cmd n i. lock_seats cmd;
  rollback_seats = λ cmd n i. rollback_seats cmd;
  publish = u.publish;
  processing_ttl = u.processing_ttl;
  result_ttl = u.result_ttl;
}

pub with_memory_inventory-IsInventory :
    {T K N V E : Type 0} (u : CreateOrderUsecase T K N V E)
    → IsInventory (with_memory_inventory u) IsStock SameStock
with_memory_inventory-IsInventory u = record {
  same_refl = λ l. (λ id. refl, λ id. refl);
  lock_failed = λ cmd n i l e failed.
      let kept = lock_seats_failed cmd l e failed in
      (λ id. ap (λ t. remain_of t id) kept, λ id. ap (λ t. is_taken (lookup id t.seat_map)) kept);
  lock_rolled_back = λ cmd n i l seats valid locked back.
      rollback_seats-lock_seats cmd l seats (valid cmd.ticket_category_id) locked;
}
