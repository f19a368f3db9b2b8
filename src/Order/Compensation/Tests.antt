-- ===== src/Order/Compensation/Tests.antt =====
-- A run of the compensation, and the theorem on it at a concrete input.
use ticket_hub.Common.{
  ℕ, suc, ℤ, pos, String, ◌≡◌, refl, Bool, true, some, List, [], ◌∷◌, if◌then◌else◌, nat_eq,
  string_eq, int_eq, ◌+ℤ◌, ◌-ℤ◌, wrap64,
}
use ticket_hub.Errors.{infrastructure, new_error, Result, ok, err}
use ticket_hub.Program.Creation.{CreateOrderEvent}
use ticket_hub.Order.Workers.{DiscardOrder}
use ticket_hub.Order.Compensation.{
  DiscardInventory, CompensationService, CompensationWorld, retry_program,
}

abbrev discarded : ℤ → ℤ → DiscardOrder
discarded n u = record {
  id = n;
  order_number = n;
  program_id = pos 3;
  user_id = u;
  ticket_category_id = pos 2;
  seat_ids = pos 8 ∷ pos 9 ∷ [];
  ticket_user_ids = [];
  amount_cent = pos 100;
  reason = "CONSUMER_DELAY";
  detail = "";
}

-- An inventory that counts what is taken.
abbrev counting : DiscardInventory ℤ
counting = record {
  reserve_create_order = λ r taken. (ok tt, taken +ℤ r.count);
  rollback_create_order = λ r taken. (ok tt, taken -ℤ r.count);
}

abbrev encode : CreateOrderEvent → Result String
encode e = ok "event"

abbrev service : Bool → CompensationService (List ℤ) ℤ ℕ
service works = record {
  discards = record {
    list_pending =
        λ program limit ds. ok (discarded (pos 41) (pos 7) ∷ discarded (pos 42) (pos 0) ∷ []);
    find_pending_by_id = λ id ds. ok (discarded id (pos 7));
    mark_retried = λ id now ds. (ok tt, id ∷ ds);
  };
  publish = λ m sent.
      if works then (ok tt, suc sent) else (err (new_error infrastructure "broker"), sent);
  topic = "ticket_hub.create_order";
  inventory = some counting;
}

abbrev world : CompensationWorld (List ℤ) ℤ ℕ
world = record { discards = []; program = pos 5; events = 0 }

-- One order is tried again, and the one without a user is left out.
program_runs : retry_program encode (service true) (λ i. pos 9) (pos 3) (pos 10) world ≡ (
  ok (record { requested = pos 2; retried = pos 1; skipped = pos 1 }),
  record { discards = pos 41 ∷ []; program = pos 7; events = 1 },
)
unfolding retry_program ◌+ℤ◌ wrap64
program_runs = refl
