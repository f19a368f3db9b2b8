-- ===== src/Program/Creation/Tests.antt =====
-- Runs of the creation of orders and of the idempotency keys, and the theorems on them at concrete
-- inputs.
use ticket_hub.Common.{
  ℕ, suc, pos, ◌≡◌, refl, none, List, [], ◌∷◌, arith, nat_eq, string_eq, int_eq, ◌+ℤ◌,
}
use ticket_hub.Common.Dict.{lookup}
use ticket_hub.Errors.{ok, err, new_error, duplicate_submission}
use ticket_hub.Program.{CreateOrderCommand, sold}
use ticket_hub.Program.Inventory.{InventoryLocker, remain_of}
use ticket_hub.Program.Idempotency
use ticket_hub.Program.Idempotency.{
  IdempotencyEntry, Entries, processing, completed, acquired_result, begin, complete, abort,
}
use ticket_hub.Program.Idempotency.Keys.{
  Call, beginning, completing, aborting, run, begin-begin, begin-complete,
}
use ticket_hub.Program.Creation.{World, CreateOrderUsecase, Message, create_async}
use ticket_hub.Program.Creation.Outcomes.{Ends}
use ticket_hub.Program.Creation.Atomic.{create_async-Ends}
use ticket_hub.Program.Creation.Memory.{
  IsStock, SameStock, with_memory_inventory, with_memory_inventory-IsInventory,
}

abbrev purchase : CreateOrderCommand
purchase = record {
  request_id = "request-1";
  user_id = pos 7;
  program_id = pos 3;
  ticket_category_id = pos 2;
  seat_ids = pos 8 ∷ pos 9 ∷ [];
  ticket_user_ids = pos 5 ∷ pos 6 ∷ [];
}

-- The services: keys in memory at the time 10, numbers from a counter, and a list of the messages.
abbrev shop : CreateOrderUsecase (Unit {0}) Entries ℕ InventoryLocker (List Message)
shop = with_memory_inventory {V = Unit {0}} (record {
  validator = none;
  rate_limiter = none;
  begin = λ key fingerprint ttl. begin (pos 10) (pos 10) key fingerprint ttl;
  complete = λ key fingerprint number ttl. complete (pos 10) key fingerprint number ttl;
  abort = λ key fingerprint. abort key fingerprint;
  calculate_amount = λ cmd. ok (pos 9900);
  next_order_number = λ user n. (ok (pos n), suc n);
  next_id = λ n. (ok (pos n), suc n);
  lock_seats = λ cmd n i v. (ok [], v);
  rollback_seats = λ cmd n i v. (ok tt, v);
  publish = λ message sent. (ok tt, message ∷ sent);
  processing_ttl = pos 300;
  result_ttl = pos 86400;
})

abbrev opening : World (Unit {0}) Entries ℕ InventoryLocker (List Message)
opening = record {
  limits = tt;
  keys = [];
  numbers = 41;
  inventory = record { remain = (pos 2, pos 3) ∷ []; seat_map = (pos 7, sold) ∷ [] };
  events = [];
}

opening-IsStock : IsStock opening.inventory
unfolding remain_of lookup
opening-IsStock id = ground arith

create_async-Ends_example :
    Ends shop SameStock
      (λ event. ok "{}")
      (pos 10)
      (pos 11)
      purchase
      opening
      (create_async shop
        (λ key. pos 9)
        (λ cmd. ok "digest")
        (λ event. ok "{}")
        (pos 10)
        (pos 11)
        purchase
        opening)
create_async-Ends_example =
    create_async-Ends shop SameStock (λ event. ok "{}") (pos 10) (pos 11) IsStock
      (with_memory_inventory-IsInventory {V = Unit {0}} (record {
        validator = none;
        rate_limiter = none;
        begin = shop.begin;
        complete = shop.complete;
        abort = shop.abort;
        calculate_amount = shop.calculate_amount;
        next_order_number = shop.next_order_number;
        next_id = shop.next_id;
        lock_seats = λ cmd n i v. (ok [], v);
        rollback_seats = λ cmd n i v. (ok tt, v);
        publish = shop.publish;
        processing_ttl = shop.processing_ttl;
        result_ttl = shop.result_ttl;
      }))
      (λ key. pos 9) (λ cmd. ok "digest") purchase opening opening-IsStock

first_runs : (begin (pos 10) (pos 10) "request-1" "digest" (pos 300) []).0 ≡ ok acquired_result
unfolding begin lookup Idempotency.acquire
first_runs = refl

abbrev held_keys : Entries
held_keys =
    (
      "request-1",
      record {
        fingerprint = "digest";
        state = processing;
        order_number = pos 0;
        expires_at = pos 310;
      },
    )
    ∷ []

complete_runs : (complete (pos 20) "request-1" "digest" (pos 41) (pos 600) held_keys).0 ≡ ok tt
unfolding complete lookup
complete_runs = refl

-- Calls that come between: the key with another request, another key, and the end of a request that
-- does not hold the key.
abbrev between : List Call
between =
    beginning (pos 15) (pos 15) "request-1" "other" (pos 300)
    ∷ beginning (pos 16) (pos 16) "request-2" "digest" (pos 300)
    ∷ completing (pos 17) "request-2" "digest" (pos 42) (pos 600)
    ∷ aborting "request-1" "other"
    ∷ []

begin-begin_example :
    let entries = run between (begin (pos 10) (pos 10) "request-1" "digest" (pos 300) []).1 in
    begin (pos 20) (pos 20) "request-1" "other" (pos 300) entries ≡ (
      err (new_error duplicate_submission "idempotency key was reused with a different request"),
      entries,
    )
unfolding ◌+ℤ◌ lookup
begin-begin_example =
    begin-begin (pos 10) (pos 10) "request-1" "digest" (pos 300) [] between (pos 20) (pos 20)
      "other" (pos 300) first_runs (λ entry held. ground (arith, held))
      (λ same. omega arith, (λ same. omega arith, (refl, (refl, tt)))) (omega arith)

begin-complete_example :
    let entries = (complete (pos 20) "request-1" "digest" (pos 41) (pos 600) held_keys).1 in
    begin (pos 30) (pos 30) "request-1" "digest" (pos 300) entries
    ≡ (ok (record { state = completed; order_number = pos 41 }), entries)
unfolding ◌+ℤ◌
begin-complete_example =
    begin-complete (pos 20) (pos 30) (pos 30) "request-1" "digest" (pos 41) (pos 600) (pos 300)
      held_keys complete_runs (omega arith)
