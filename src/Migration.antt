-- ===== src/Migration.antt =====
-- app/migrate-service/internal: tasks that move a virtual shard to another location. This file:
-- domain/migrate/entities.go and application/migration.go. A time is a number of nanoseconds, and the
-- zero time is `none`. The counters of the observability package are left out.
pub mod Memory
pub mod Moves
pub mod Exclusive
pub mod Waits
mod Tests
use ticket_hub.Common.{
  ℕ, zero, suc, ◌+◌, ◌-◌, ◌*◌, ◌/◌, ◌%◌, ◌^◌, ◌≤◌, ◌<◌, ℤ, pos, negsuc, String, ◌≡◌, ◌≢◌, refl, sym,
  ap, subst, ◌∙◌, ◌↔◌, ◌⊎◌, inl, inr, Bool, true, false, not, ◌&&◌, ◌||◌, Option, none, some, List,
  [], ◌∷◌, ◌++◌, map, arith, ltb, leb, nat_eqb, if◌then◌else◌, Bool-cases, Option-cases, Eq, ◌==◌,
  nat_eq, string_eq, int_eq, ==_refl, ==_ne, length, get_elem?, take, length-append, length-take,
  All, Mem, All-imp, All-append, All-map, All-Mem, map-Mem, pos_part, neg_part, sub_ℕ, ◌+ℤ◌, ◌-ℤ◌,
  ◌*ℤ◌, ◌≤ℤ◌, ◌<ℤ◌, ltb_ℤ, leb_ℤ, eqb_ℤ, eq_of_parts, eqb_ℤ_iff, +ℤ_parts, -ℤ_parts, int_laws,
  IsInt64, wrap64, wrap64_id, wrap64-IsInt64, add64, sub64, mul64, quotient, remainder,
  quotient_nonneg, remainder_nonneg, bits64, neg_part-zero, pos_of, add64-pos, mul64-pos,
}
use Prim.Native.Char.{code}
use ticket_hub.Common.Fmt.{trim_left, trim_right}
use ticket_hub.Errors.{Code, GoError, errorf, new_error, Result, ok, err}
use ticket_hub.Action.{Action}
use ticket_hub.Lock.{Locker}
use ticket_hub.Sharding.MappingRouter.{WriteMode}

-- The constants of the string type `TaskStatus`; a request may leave it empty.
pub data TaskStatus : Type 0 where
  unset_status task_pending task_running task_paused task_done task_failed : TaskStatus
  other_task : String → TaskStatus

pub record MigrationTask : Type 0 where
  pub id : ℤ
  pub virtual_shard : ℤ
  pub source_shard : String
  pub target_shard : String
  pub status : TaskStatus
  pub batch_size : ℤ
  pub cursor_order_number : ℤ
  pub copied_rows : ℤ
  pub error_message : String
  pub created_at : Option ℤ

pub record ShardMapping : Type 0 where
  pub virtual_shard : ℤ
  pub physical_db : String
  pub physical_table : String
  pub shadow_db : String
  pub shadow_table : String
  pub write_mode : WriteMode
  pub version : ℤ

-- `strings.Split(s, ".")`: the text up to the first dot, and the parts after it.
unfoldable pub split : String → String × List String
split String.[] = ("", [])
split (String.◌∷◌ c s) =
    let (first, rest) = split s in
    if nat_eqb (code c) 46 then ("", first ∷ rest) else (String.◌∷◌ c first, rest)

-- The characters of `shardNamePattern`.
unfoldable pub is_name_char : ℕ → Bool
is_name_char c =
    (leb 65 c && leb c 90) || (leb 97 c && leb c 122) || (leb 48 c && leb c 57) || nat_eqb c 95

unfoldable pub all_name_chars : String → Bool
unfolding is_name_char
all_name_chars String.[] = true
all_name_chars (String.◌∷◌ c s) = is_name_char (code c) && all_name_chars s

unfoldable pub is_shard_name : String → Bool
unfolding all_name_chars
is_shard_name s = not (s == "") && all_name_chars s

-- `ParseShardLocation`
unfoldable pub parse_shard_location : String → Result (String × String)
unfolding trim_left trim_right split is_shard_name
parse_shard_location value =
    let (database, rest) = split (trim_right (trim_left value)) in
    elim rest [
      | table ∷ [] ↦
          if is_shard_name database && is_shard_name table
          then ok (database, table)
          else err (errorf "shard location must use database.table" [])
      | _ ↦ err (errorf "shard location must use database.table" [])
    ]

-- `MigrationRepository`, over the state `R`. `fail_task` takes the text of an error.
pub record MigrationRepository (R : Type 0) : Type 0 where
  pub save_task : MigrationTask → Action R (Unit {0})
  pub load_shard_mappings : R → Result (List ShardMapping)
  pub load_next_task : Action R (Option MigrationTask)
  pub copy_batch : MigrationTask → Action R (ℤ × ℤ)
  pub complete_task : MigrationTask → Action R (Unit {0})
  pub fail_task : ℤ → String → Action R (Unit {0})
  pub resume_task : ℤ → Action R (Unit {0})

-- `DualWritePropagationDelay`: `DefaultMappingMaxStaleness` of pkg/sharding/router.go and five
-- seconds.
abbrev pub dual_write_propagation_delay : ℤ
dual_write_propagation_delay = pos 20_000_000_000

abbrev pub is_unset : TaskStatus → Bool
is_unset unset_status = true
is_unset s = false

abbrev pub contains : String → List String → Bool
contains x [] = false
contains x (y ∷ ys) = x == y || contains x ys

abbrev pub invalid : String → Result (Unit {0})
invalid message = err (new_error Code.invalid_argument message)

-- The checks of `SaveTask`; `targets` are the allowed targets.
unfoldable pub check_task : (GoError → String) → List String → MigrationTask → Result (Unit {0})
unfolding parse_shard_location
check_task text targets task =
    if leb_ℤ task.id (pos 0) || ltb_ℤ task.virtual_shard (pos 0)
    then invalid "migration task id and virtual shard are required"
    else elim (parse_shard_location task.source_shard) [
      | err e ↦ invalid (text e)
      | ok source ↦ elim (parse_shard_location task.target_shard) [
        | err e ↦ invalid (text e)
        | ok target ↦
            if task.source_shard == task.target_shard
            then invalid "source and target shards must differ"
            else if ltb 0 (length targets) && not (contains task.target_shard targets)
            then invalid "target shard is not configured"
            else ok tt
      ]
    ]

-- The defaults that `SaveTask` fills in.
unfoldable pub with_defaults : ℤ → MigrationTask → MigrationTask
with_defaults now task = record task {
  batch_size = if leb_ℤ task.batch_size (pos 0) then pos 500 else task.batch_size;
  status = if is_unset task.status then task_pending else task.status;
  created_at = elim task.created_at [ none ↦ some now | some t ↦ some t ];
}

module _ {R : Type 0} (repo : MigrationRepository R) (text : GoError → String) where
  -- `SaveTask` of `MigrationService`
  unfoldable pub save_task : List String → ℤ → MigrationTask → Action R (Unit {0})
  unfolding check_task with_defaults
  save_task targets now task r = elim (check_task text targets task) [
    | err e ↦ (err e, r)
    | ok u ↦ repo.save_task (with_defaults now task) r
  ]

  -- `ResumeTask`
  unfoldable pub resume_task : ℤ → Action R (Unit {0})
  resume_task id r =
      if leb_ℤ id (pos 0) then (invalid "task_id is required", r) else repo.resume_task id r

  -- A step of a task that failed: it is told to the repository, whatever that answers.
  unfoldable pub give_up : ℤ → GoError → Action R (Unit {0})
  give_up id e r = (err e, (repo.fail_task id (text e) r).1)

  -- The end of a task, whose rows are all copied.
  unfoldable pub finish_task : MigrationTask → Action R (Unit {0})
  unfolding give_up
  finish_task task r =
      let (done, r') = repo.complete_task task r in
      elim done [ err e ↦ give_up task.id e r' | ok u ↦ (ok tt, r') ]

  -- `Poll` for a task that is old enough.
  unfoldable pub advance : MigrationTask → Action R (Unit {0})
  unfolding give_up finish_task
  advance task r =
      let (copied, r') = repo.copy_batch task r in
      elim copied [
        | err e ↦ give_up task.id e r'
        | ok (rows, cursor) ↦ if ltb_ℤ (pos 0) rows then (ok tt, r') else finish_task task r'
      ]

  -- `Poll` under its lock.
  unfoldable pub poll_task : ℤ → Action R (Unit {0})
  unfolding advance
  poll_task now r =
      let (loaded, r') = repo.load_next_task r in
      elim loaded [
        | err e ↦ (err e, r')
        | ok none ↦ (ok tt, r')
        | ok (some task) ↦ elim task.created_at [
          | none ↦ (ok tt, r')
          | some t ↦
              if ltb_ℤ (now -ℤ t) dual_write_propagation_delay then (ok tt, r') else advance task r'
        ]
      ]

  -- `Poll` of `MigrationWorker`; `refused` says that the lock is held by another worker.
  unfoldable pub poll_locked :
      {L : Type 0} → Locker L → (GoError → Bool) → ℤ → Action (R × L) (Unit {0})
  unfolding poll_task
  poll_locked service refused now (r, l) =
      let (held, l') = service.acquire "tickethub:migrate:worker" (pos 30_000_000_000) l in
      elim held [
        | err e ↦ if refused e then (ok tt, (r, l')) else (err e, (r, l'))
        | ok token ↦
            let (done, r') = poll_task now r in
            (done, (r', service.release "tickethub:migrate:worker" token l'))
      ]
