-- ===== src/Migration/Moves.antt =====
-- app/migrate-service/internal/infrastructure/memory/migration_repository.go: how the mappings move
-- over any sequence of calls.
use ticket_hub.Common.{
  ℤ, String, ◌≡◌, refl, subst, inl, inr, ◌⊎◌, pos, Bool, true, some, List, [], ◌∷◌, arith,
  Bool-cases, Option-cases, nat_eq, string_eq, int_eq, add64,
}
use ticket_hub.Sharding.MappingRouter.{WriteMode, primary_only, dual_write, is_dual}
use ticket_hub.Migration.{MigrationTask, ShardMapping}
use ticket_hub.Migration.Memory.{
  Migrations, location_of, is_assigned, is_source, with_shadow, change_first, is_moving, moved,
  save_task, load_next_task, complete_task, fail_task, resume_task, next_open,
}
use ticket_hub.Common.Dict.{lookup}

-- A call of the repository; a save has the time at which it is made.
pub data Call : Type 0 where
  saving : ℤ → MigrationTask → Call
  loading : Call
  completing : MigrationTask → Call
  failing : ℤ → String → Call
  resuming : ℤ → Call

unfoldable pub call : Call → Migrations → Migrations
unfolding save_task load_next_task complete_task fail_task resume_task
call (saving now task) r = (save_task now task r).1
call loading r = (load_next_task r).1
call (completing task) r = (complete_task task r).1
call (failing id reason) r = (fail_task id reason r).1
call (resuming id) r = (resume_task id r).1

unfoldable pub run : List Call → Migrations → Migrations
unfolding call
run [] r = r
run (c ∷ cs) r = run cs (call c r)

-- The writes of a shard also go to a shadow at the location `to`, from now on.
abbrev pub IsStarted : String × String → ShardMapping → ShardMapping → Type 0
IsStarted to m m' =
    (m'.virtual_shard ≡ m.virtual_shard)
    × (m'.physical_db ≡ m.physical_db)
    × (m'.physical_table ≡ m.physical_table)
    × (m'.shadow_db ≡ to.0)
    × (m'.shadow_table ≡ to.1)
    × (m'.write_mode ≡ dual_write)
    × (m'.version ≡ add64 m.version (pos 1))

-- The shadow of a shard becomes the place where the shard is.
abbrev pub IsEnded : ShardMapping → ShardMapping → Type 0
IsEnded m m' =
    (m'.virtual_shard ≡ m.virtual_shard)
    × (m'.physical_db ≡ m.shadow_db)
    × (m'.physical_table ≡ m.shadow_table)
    × (m'.shadow_db ≡ "")
    × (m'.shadow_table ≡ "")
    × (m'.write_mode ≡ primary_only)
    × (m'.version ≡ add64 m.version (pos 1))

-- How a call may change a mapping: saving a task starts the writes of the task's shard, if it is at
-- the task's source, to the task's target; completing a task ends the dual writes of its shard.
pub data Moves (c : Call) (m m' : ShardMapping) : Type 0 where
  starts :
      (now : ℤ) (task : MigrationTask)
      → c ≡ saving now task
      → m.virtual_shard ≡ task.virtual_shard
      → m.physical_db ≡ (location_of task.source_shard).0
      → m.physical_table ≡ (location_of task.source_shard).1
      → IsStarted (location_of task.target_shard) m m'
      → Moves c m m'
  ends :
      (task : MigrationTask)
      → c ≡ completing task
      → m.virtual_shard ≡ task.virtual_shard
      → m.write_mode ≡ dual_write
      → IsEnded m m'
      → Moves c m m'

-- At most one mapping is changed, in one of these ways, and the others stay.
abbrev pub OneMoves : Call → List ShardMapping → List ShardMapping → Type 0
OneMoves c [] [] = Unit
OneMoves c [] (m' ∷ ms') = ⊥
OneMoves c (m ∷ ms) [] = ⊥
OneMoves c (m ∷ ms) (m' ∷ ms') = (Moves c m m' × (ms' ≡ ms)) ⊎ ((m' ≡ m) × OneMoves c ms ms')

no_moves : (c : Call) (ms : List ShardMapping) → OneMoves c ms ms
no_moves c [] = tt
no_moves c (m ∷ ms) = inr (refl, no_moves c ms)

change_first-OneMoves :
    (c : Call) (test : ShardMapping → Bool) (change : ShardMapping → ShardMapping)
    (steps : (m : ShardMapping) → test m ≡ true → Moves c m (change m)) (ms ms' : List ShardMapping)
    → change_first test change ms ≡ some ms'
    → OneMoves c ms ms'
unfolding change_first
change_first-OneMoves c test change steps [] ms' h = absurd (ground (arith, h))
change_first-OneMoves c test change steps (m ∷ ms) ms' h = elim (Bool-cases (test m)) [
  | inl hit ↦
      let here : change m ∷ ms ≡ ms' = ground (arith, hit, h) in
      subst (OneMoves c (m ∷ ms)) here (inl (steps m hit, refl))
  | inr miss ↦ elim (Option-cases (change_first test change ms)) [
    | inl stuck ↦ absurd (ground (arith, miss, stuck, h))
    | inr (ys, found) ↦
        let there : m ∷ ys ≡ ms' = ground (arith, miss, found, h) in
        subst (OneMoves c (m ∷ ms)) there
          (inr (refl, change_first-OneMoves c test change steps ms ys found))
  ]
]

is_source-starts :
    (now : ℤ) (task : MigrationTask) (m : ShardMapping)
    → is_source task.virtual_shard (location_of task.source_shard) m ≡ true
    → Moves (saving now task) m (with_shadow (location_of task.target_shard) m)
unfolding with_shadow
is_source-starts now task m hit =
    let (database, table) = location_of task.source_shard in
    let shard_test = int_eq.beq_iff m.virtual_shard task.virtual_shard in
    let database_test = string_eq.beq_iff m.physical_db database in
    let table_test = string_eq.beq_iff m.physical_table table in
    starts now task refl (ground (arith, hit, shard_test)) (ground (arith, hit, database_test))
      (ground (arith, hit, table_test)) (refl, refl, refl, refl, refl, refl, refl)

is_moving-ends :
    (task : MigrationTask) (m : ShardMapping)
    → is_moving task.virtual_shard m ≡ true
    → Moves (completing task) m (moved m)
unfolding moved
is_moving-ends task m hit =
    let shard_test = int_eq.beq_iff m.virtual_shard task.virtual_shard in
    ends task refl (ground (arith, hit, shard_test)) (dual m.write_mode (ground (arith, hit)))
      (refl, refl, refl, refl, refl, refl, refl)
  where
    dual : (w : WriteMode) → is_dual w ≡ true → w ≡ dual_write
    dual dual_write h = refl
    dual w h = absurd (ground (arith, h))

-- A call changes at most one mapping, and only so: saving a task makes a mapping of the task's
-- shard, that is at the task's source, write also to a shadow at the task's target; completing a
-- task makes a mapping of the task's shard, that is in dual write, be at its shadow, with no shadow
-- left. Either adds one to the version, and keeps all else of the mapping.
pub call-OneMoves : (c : Call) (r : Migrations) → OneMoves c r.mappings (call c r).mappings
unfolding call save_task load_next_task complete_task fail_task resume_task
call-OneMoves (saving now task) r =
    let source = location_of task.source_shard in
    let target = location_of task.target_shard in
    elim (Bool-cases (is_assigned task.virtual_shard target r.mappings)) [
      | inl taken ↦
          subst (OneMoves (saving now task) r.mappings) (ground (arith, taken))
            (no_moves (saving now task) r.mappings)
      | inr free ↦
          elim (Option-cases
            (change_first (is_source task.virtual_shard source) (with_shadow target) r.mappings)) [
              | inl missing ↦
                  subst (OneMoves (saving now task) r.mappings) (ground (arith, free, missing))
                    (no_moves (saving now task) r.mappings)
              | inr (ms, found) ↦
                  subst (OneMoves (saving now task) r.mappings) (ground (arith, free, found)) (
                    change_first-OneMoves (saving now task) (is_source task.virtual_shard source)
                      (with_shadow target) (is_source-starts now task) r.mappings ms found)
            ]
    ]
call-OneMoves loading r = elim (Option-cases (next_open r.tasks)) [
  | inl nothing ↦
      subst (OneMoves loading r.mappings) (ground (arith, nothing)) (no_moves loading r.mappings)
  | inr (id, found) ↦ elim (Option-cases (lookup id r.tasks)) [
    | inl missing ↦
        subst (OneMoves loading r.mappings) (ground (arith, found, missing))
          (no_moves loading r.mappings)
    | inr (task, stored) ↦
        subst (OneMoves loading r.mappings) (ground (arith, found, stored))
          (no_moves loading r.mappings)
  ]
]
call-OneMoves (completing task) r =
    elim (Option-cases (change_first (is_moving task.virtual_shard) moved r.mappings)) [
      | inl missing ↦
          subst (OneMoves (completing task) r.mappings) (ground (arith, missing))
            (no_moves (completing task) r.mappings)
      | inr (ms, found) ↦ subst (OneMoves (completing task) r.mappings) (ground (arith, found)) (
          change_first-OneMoves (completing task) (is_moving task.virtual_shard) moved
            (is_moving-ends task) r.mappings ms found)
    ]
call-OneMoves (failing id reason) r = elim (Option-cases (lookup id r.tasks)) [
  | inl missing ↦
      subst (OneMoves (failing id reason) r.mappings) (ground (arith, missing))
        (no_moves (failing id reason) r.mappings)
  | inr (task, stored) ↦
      subst (OneMoves (failing id reason) r.mappings) (ground (arith, stored))
        (no_moves (failing id reason) r.mappings)
]
call-OneMoves (resuming id) r = elim (Option-cases (lookup id r.tasks)) [
  | inl missing ↦
      subst (OneMoves (resuming id) r.mappings) (ground (arith, missing))
        (no_moves (resuming id) r.mappings)
  | inr (task, stored) ↦
      subst (OneMoves (resuming id) r.mappings) (ground (arith, stored))
        (no_moves (resuming id) r.mappings)
]
