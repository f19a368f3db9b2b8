-- ===== src/Migration/Waits.antt =====
-- app/migrate-service/internal/application/migration.go: the worker leaves a task alone until every
-- writer knows of its dual writes.
use ticket_hub.Common.{
  ℤ, pos, String, ◌≡◌, ◌⊎◌, inl, inr, Bool, true, none, some, arith, if◌then◌else◌, nat_eq,
  string_eq, int_eq, ◌+ℤ◌, ◌-ℤ◌, ◌<ℤ◌, ltb_ℤ, +ℤ_parts, -ℤ_parts,
}
use ticket_hub.Errors.{GoError, ok, err}
use ticket_hub.Lock.{Locker}
use ticket_hub.Migration.{
  MigrationTask, MigrationRepository, poll_task, poll_locked, dual_write_propagation_delay,
}

-- A poll that loads a task whose time of creation is unknown, or less than the propagation delay ago,
-- succeeds, and does nothing but to load it, in any repository.
pub early_poll :
    {R : Type 0} (repo : MigrationRepository R) (text : GoError → String) (now : ℤ)
    (task : MigrationTask) (r : R)
    → (repo.load_next_task r).0 ≡ ok (some task)
    → (task.created_at ≡ none)
      ⊎ ((t : ℤ) × (task.created_at ≡ some t) × (now <ℤ t +ℤ dual_write_propagation_delay))
    → poll_task repo text now r ≡ (ok tt, (repo.load_next_task r).1)
unfolding poll_task
early_poll repo text now task r loaded (inl unknown) = ground (arith, loaded, unknown)
early_poll repo text now task r loaded (inr (t, created, early)) =
    let young : ltb_ℤ (now -ℤ t) dual_write_propagation_delay ≡ true =
      ground (arith, early, -ℤ_parts now t, +ℤ_parts t dual_write_propagation_delay) in
    ground (arith, loaded, created, young)

-- A worker that does not get the lock leaves the tasks alone, and fails exactly where the refusal is
-- another one than that the lock is held.
pub poll_without_lock :
    {R L : Type 0} (repo : MigrationRepository R) (text : GoError → String) (service : Locker L)
    (refused : GoError → Bool) (now : ℤ) (r : R) (l : L) (e : GoError)
    → (service.acquire "tickethub:migrate:worker" (pos 30_000_000_000) l).0 ≡ err e
    → ((poll_locked repo text service refused now (r, l)).1.0 ≡ r)
      × ((poll_locked repo text service refused now (r, l)).0
          ≡ (if refused e then ok tt else err e))
unfolding poll_locked
poll_without_lock repo text service refused now r l e denied = ground (arith, denied)
