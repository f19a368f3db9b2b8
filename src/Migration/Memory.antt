-- ===== src/Migration/Memory.antt =====
-- app/migrate-service/internal/infrastructure/memory/migration_repository.go.
use ticket_hub.Common.{
  ℤ, pos, String, Bool, true, false, not, ◌&&◌, ◌||◌, Option, none, some, List, [], ◌∷◌,
  if◌then◌else◌, ◌==◌, nat_eq, string_eq, int_eq, ltb_ℤ, add64,
}
use ticket_hub.Common.Dict.{Dict, lookup, insert}
use ticket_hub.Errors.{Code, conflict, new_error, ok, err}
use ticket_hub.Action.{Action}
use ticket_hub.Sharding.MappingRouter.{primary_only, dual_write, is_dual}
use ticket_hub.Migration.{
  TaskStatus, unset_status, task_pending, task_running, task_paused, task_done, task_failed,
  MigrationTask, ShardMapping, MigrationRepository, parse_shard_location,
}

pub record Migrations : Type 0 where
  pub tasks : Dict ℤ MigrationTask
  pub mappings : List ShardMapping

abbrev pub mapping_at : ℤ → String → String → ShardMapping
mapping_at shard database table = record {
  virtual_shard = shard;
  physical_db = database;
  physical_table = table;
  shadow_db = "";
  shadow_table = "";
  write_mode = primary_only;
  version = pos 1;
}

-- `NewMigrationRepository`
unfoldable pub new_migration_repository : Migrations
new_migration_repository = record {
  tasks = [];
  mappings =
      mapping_at (pos 0) "tickethub_order_0" "orders_0"
      ∷ mapping_at (pos 1) "tickethub_order_0" "orders_1"
      ∷ [];
}

-- `database, table, _ := ParseShardLocation(value)`
unfoldable pub location_of : String → String × String
unfolding parse_shard_location
location_of value = elim (parse_shard_location value) [ ok l ↦ l | err e ↦ ("", "") ]

-- The loop of `SaveTask` that looks for another shard at the target.
unfoldable pub is_assigned : ℤ → String × String → List ShardMapping → Bool
is_assigned shard (database, table) [] = false
is_assigned shard (database, table) (m ∷ ms) =
    (not (m.virtual_shard == shard)
      && ((m.physical_db == database && m.physical_table == table)
          || (m.shadow_db == database && m.shadow_table == table)))
    || is_assigned shard (database, table) ms

-- The loop of `SaveTask` that starts the dual writes, on the first mapping of the shard at the
-- source.
abbrev pub is_source : ℤ → String × String → ShardMapping → Bool
is_source shard (database, table) m =
    m.virtual_shard == shard && m.physical_db == database && m.physical_table == table

unfoldable pub with_shadow : String × String → ShardMapping → ShardMapping
with_shadow (database, table) m = record m {
  shadow_db = database;
  shadow_table = table;
  write_mode = dual_write;
  version = add64 m.version (pos 1);
}

-- The first element that passes the test, changed; `none` if there is none.
unfoldable pub change_first : {A : Type 0} → (A → Bool) → (A → A) → List A → Option (List A)
change_first test change [] = none
change_first test change (x ∷ xs) =
    let rest = change_first test change xs in
    if test x then some (change x ∷ xs) else elim rest [ none ↦ none | some ys ↦ some (x ∷ ys) ]

-- `SaveTask` at the time `now`
unfoldable pub save_task : ℤ → MigrationTask → Action Migrations (Unit {0})
unfolding location_of is_assigned with_shadow change_first
save_task now task r =
    let source = location_of task.source_shard in
    let target = location_of task.target_shard in
    let dated : MigrationTask = record task {
      created_at = elim task.created_at [ none ↦ some now | some t ↦ some t ];
    } in
    if is_assigned task.virtual_shard target r.mappings
    then (err (new_error conflict "target shard is already assigned"), r)
    else elim (change_first (is_source task.virtual_shard source) (with_shadow target) r.mappings) [
      | none ↦ (err (new_error conflict "source shard does not match current mapping"), r)
      | some ms ↦ (ok tt, record { tasks = insert task.id dated r.tasks; mappings = ms })
    ]

abbrev pub is_open : TaskStatus → Bool
is_open task_pending = true
is_open task_running = true
is_open s = false

-- The least id of an open task.
unfoldable pub next_open : Dict ℤ MigrationTask → Option ℤ
next_open [] = none
next_open ((id, task) ∷ tasks) =
    let rest = next_open tasks in
    if is_open task.status
    then elim rest [ none ↦ some id | some j ↦ some (if ltb_ℤ j id then j else id) ]
    else rest

-- `LoadNextTask`; it stores the running task under the id that the task holds.
unfoldable pub load_next_task : Action Migrations (Option MigrationTask)
unfolding next_open
load_next_task r = elim (next_open r.tasks) [
  | none ↦ (ok none, r)
  | some id ↦ elim (lookup id r.tasks) [
    | none ↦ (ok none, r)
    | some task ↦
        let running : MigrationTask = record task { status = task_running } in
        (ok (some running), record r { tasks = insert running.id running r.tasks })
  ]
]

-- `CopyBatch` of the repository in memory, which has no rows.
unfoldable pub copy_batch : MigrationTask → Action Migrations (ℤ × ℤ)
copy_batch task r = (ok (pos 0, task.cursor_order_number), r)

abbrev pub is_moving : ℤ → ShardMapping → Bool
is_moving shard m = m.virtual_shard == shard && is_dual m.write_mode

unfoldable pub moved : ShardMapping → ShardMapping
moved m = record m {
  physical_db = m.shadow_db;
  physical_table = m.shadow_table;
  shadow_db = "";
  shadow_table = "";
  write_mode = primary_only;
  version = add64 m.version (pos 1);
}

-- The zero value of a task.
abbrev pub zero_task : MigrationTask
zero_task = record {
  id = pos 0;
  virtual_shard = pos 0;
  source_shard = "";
  target_shard = "";
  status = unset_status;
  batch_size = pos 0;
  cursor_order_number = pos 0;
  copied_rows = pos 0;
  error_message = "";
  created_at = none;
}

-- `CompleteTask`
unfoldable pub complete_task : MigrationTask → Action Migrations (Unit {0})
unfolding change_first moved
complete_task task r = elim (change_first (is_moving task.virtual_shard) moved r.mappings) [
  | none ↦ (err (new_error conflict "dual-write mapping not found"), r)
  | some ms ↦
      let stored : MigrationTask = elim (lookup task.id r.tasks) [
        | none ↦ zero_task
        | some t ↦ t
      ] in
      (
        ok tt,
        record {
          tasks = insert task.id (record stored { status = task_done }) r.tasks;
          mappings = ms;
        },
      )
]

-- `FailTask`
unfoldable pub fail_task : ℤ → String → Action Migrations (Unit {0})
fail_task id reason r = elim (lookup id r.tasks) [
  | none ↦ (err (new_error Code.not_found "migration task not found"), r)
  | some task ↦ (
    ok tt,
    record r {
      tasks = insert id (record task { status = task_paused; error_message = reason }) r.tasks;
    },
  )
]

abbrev pub is_resumable : TaskStatus → Bool
is_resumable task_paused = true
is_resumable task_failed = true
is_resumable s = false

-- `ResumeTask`
unfoldable pub resume_task : ℤ → Action Migrations (Unit {0})
resume_task id r = elim (lookup id r.tasks) [
  | none ↦ (err (new_error conflict "migration task is not resumable"), r)
  | some task ↦
      if is_resumable task.status
      then (
        ok tt,
        record r {
          tasks = insert id (record task { status = task_running; error_message = "" }) r.tasks;
        },
      )
      else (err (new_error conflict "migration task is not resumable"), r)
]

-- The repository in memory, at the time `now`.
abbrev pub memory_repository : ℤ → MigrationRepository Migrations
memory_repository now = record {
  save_task = save_task now;
  load_shard_mappings = λ r. ok r.mappings;
  load_next_task = load_next_task;
  copy_batch = copy_batch;
  complete_task = complete_task;
  fail_task = fail_task;
  resume_task = resume_task;
}
