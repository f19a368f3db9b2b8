-- ===== src/Migration/Tests.antt =====
-- Runs of the migration of a shard, and the theorems on it at concrete inputs.
use ticket_hub.Common.{
  ℤ, pos, String, ◌≡◌, refl, sym, ap, subst, ◌∙◌, inl, inr, true, none, List, [], ◌∷◌, arith,
  nat_eq, string_eq, int_eq, ◌+ℤ◌, wrap64,
}
use ticket_hub.Migration.{unset_status, MigrationTask, ShardMapping, parse_shard_location}
use ticket_hub.Migration.Memory.{new_migration_repository, mapping_at, save_task, complete_task}
use ticket_hub.Migration.Moves.{Call, saving, completing, call, run, OneMoves, call-OneMoves}
use ticket_hub.Migration.Exclusive.{IsExclusive, run-IsExclusive, is_at}

abbrev task_to : String → ℤ → MigrationTask
task_to target id = record {
  id = id;
  virtual_shard = pos 0;
  source_shard = " tickethub_order_0.orders_0 ";
  target_shard = target;
  status = unset_status;
  batch_size = pos 0;
  cursor_order_number = pos 0;
  copied_rows = pos 0;
  error_message = "";
  created_at = none;
}

abbrev moving : List Call
moving =
    saving (pos 5) (task_to "db_1.orders_7" (pos 1))
    ∷ completing (task_to "db_1.orders_7" (pos 1))
    ∷ []

-- The shard is at its target, after two changes.
moving_runs :
    (run moving new_migration_repository).mappings
    ≡ record (mapping_at (pos 0) "db_1" "orders_7") { version = pos 3 }
      ∷ mapping_at (pos 1) "tickethub_order_0" "orders_1"
      ∷ []
unfolding run new_migration_repository save_task parse_shard_location complete_task wrap64 ◌+ℤ◌
moving_runs = refl

-- A second task for a shard that is moving replaces the shadow of the first, and the end of the first
-- moves the shard to the target of the second.
abbrev crossing : List Call
crossing =
    saving (pos 5) (task_to "db_1.orders_7" (pos 1))
    ∷ saving (pos 6) (task_to "db_2.orders_8" (pos 2))
    ∷ completing (task_to "db_1.orders_7" (pos 1))
    ∷ []

crossing_runs :
    (run crossing new_migration_repository).mappings
    ≡ record (mapping_at (pos 0) "db_2" "orders_8") { version = pos 4 }
      ∷ mapping_at (pos 1) "tickethub_order_0" "orders_1"
      ∷ []
unfolding run new_migration_repository save_task parse_shard_location complete_task wrap64 ◌+ℤ◌
crossing_runs = refl

-- A target that another shard has is refused.
taken_refused :
    (run
      (saving (pos 5) (task_to "tickethub_order_0.orders_1" (pos 1)) ∷ [])
      new_migration_repository)
    ≡ new_migration_repository
unfolding run new_migration_repository save_task parse_shard_location
taken_refused = refl

abbrev first_mapping : ShardMapping
first_mapping = mapping_at (pos 0) "tickethub_order_0" "orders_0"

abbrev second_mapping : ShardMapping
second_mapping = mapping_at (pos 1) "tickethub_order_0" "orders_1"

apart : (l : String × String) → is_at l first_mapping ≡ true → is_at l second_mapping ≡ true → ⊥
unfolding is_at
apart (d, t) first second =
    let one : "orders_0" ≡ t = (string_eq.beq_iff "orders_0" t).0 (ground (arith, first)) in
    let two : "orders_1" ≡ t = (string_eq.beq_iff "orders_1" t).0 (ground (arith, second)) in
    let same : string_eq.beq "orders_0" "orders_1" ≡ true =
      (string_eq.beq_iff "orders_0" "orders_1").1 (one ∙ sym two) in
    ground (arith, same)

new-IsExclusive : IsExclusive new_migration_repository.mappings
unfolding new_migration_repository
new-IsExclusive l x y (inl ex) (inl ey) ax ay =
    ap (λ (m : ShardMapping). m.virtual_shard) (sym ex ∙ ey)
new-IsExclusive l x y (inr (inl ex)) (inr (inl ey)) ax ay =
    ap (λ (m : ShardMapping). m.virtual_shard) (sym ex ∙ ey)
new-IsExclusive l x y (inl ex) (inr (inl ey)) ax ay = absurd (
    apart l (subst (λ (m : ShardMapping). is_at l m ≡ true) (sym ex) ax)
      (subst (λ (m : ShardMapping). is_at l m ≡ true) (sym ey) ay))
new-IsExclusive l x y (inr (inl ex)) (inl ey) ax ay = absurd (
    apart l (subst (λ (m : ShardMapping). is_at l m ≡ true) (sym ey) ay)
      (subst (λ (m : ShardMapping). is_at l m ≡ true) (sym ex) ax))
new-IsExclusive l x y (inl ex) (inr (inr none_left)) ax ay = elim none_left [ ]
new-IsExclusive l x y (inr (inl ex)) (inr (inr none_left)) ax ay = elim none_left [ ]
new-IsExclusive l x y (inr (inr none_left)) my ax ay = elim none_left [ ]

run-IsExclusive_example : IsExclusive (run crossing new_migration_repository).mappings
run-IsExclusive_example = run-IsExclusive crossing new_migration_repository new-IsExclusive

call-OneMoves_example :
    OneMoves
      (saving (pos 5) (task_to "db_1.orders_7" (pos 1)))
      new_migration_repository.mappings
      (call (saving (pos 5) (task_to "db_1.orders_7" (pos 1))) new_migration_repository).mappings
call-OneMoves_example =
    call-OneMoves (saving (pos 5) (task_to "db_1.orders_7" (pos 1))) new_migration_repository
