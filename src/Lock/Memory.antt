-- ===== src/Lock/Memory.antt =====
-- pkg/lock/memory_locker.go: locks with tokens that expire. The clock and the token generator are
-- read by the caller, so that each method is one step.
use ticket_hub.Common.{
  ℤ, String, ◌≡◌, sym, subst, inl, inr, Bool, true, false, not, ◌&&◌, Option, none, some, List, [],
  ◌∷◌, arith, if◌then◌else◌, Bool-cases, Option-cases, ◌==◌, nat_eq, string_eq, int_eq, ==_refl,
  All, ◌+ℤ◌, ◌<ℤ◌, ltb_ℤ,
}
use ticket_hub.Common.Dict.{Dict, lookup, insert, erase, lookup-insert, lookup-erase}
use ticket_hub.Errors.{errorf, str, ok, err}
use ticket_hub.Action.{Action}

pub record MemoryLockState : Type 0 where
  pub token : String
  pub expires_at : ℤ

abbrev pub Locks : Type 0
Locks = Dict String MemoryLockState

-- `state.expiresAt.After(now)`, for a lock that is there.
abbrev pub is_held : ℤ → Option MemoryLockState → Bool
is_held now none = false
is_held now (some state) = ltb_ℤ now state.expires_at

-- `Acquire` at the time `now`, with the token that `randomToken` gives.
unfoldable pub acquire : ℤ → String → String → ℤ → Action Locks String
acquire now token key ttl locks =
    if is_held now (lookup key locks)
    then (err (errorf "lock %s is already held" (str key ∷ [])), locks)
    else (ok token, insert key (record { token = token; expires_at = now +ℤ ttl }) locks)

-- `Release` of the lock on `key` with its token.
unfoldable pub release : String → String → Action Locks (Unit {0})
release key token locks = elim (lookup key locks) [
  | none ↦ (ok tt, locks)
  | some state ↦
      if not (state.token == token)
      then (err (errorf "lock token mismatch for %s" (str key ∷ [])), locks)
      else (ok tt, erase key locks)
]

-- A call of the locker: at a time, with a new token, for a key and a duration, or with the key and
-- the token of a lock.
pub data Call : Type 0 where
  acquiring : ℤ → String → String → ℤ → Call
  releasing : String → String → Call

unfoldable pub call : Call → Locks → Locks
unfolding acquire release
call (acquiring now token key ttl) locks = (acquire now token key ttl locks).1
call (releasing key token) locks = (release key token locks).1

unfoldable pub run : List Call → Locks → Locks
unfolding call
run [] locks = locks
run (c ∷ cs) locks = run cs (call c locks)

-- The call is made before the time `until`, and does not give back the lock with this token.
abbrev pub IsForeign : String → String → ℤ → Call → Type 0
IsForeign key token until (acquiring now other k ttl) = k ≡ key → now <ℤ until
IsForeign key token until (releasing k other) = (k == key && other == token) ≡ false

call_keeps :
    (key : String) (mine : MemoryLockState) (c : Call) (locks : Locks)
    → IsForeign key mine.token mine.expires_at c
    → lookup key locks ≡ some mine
    → lookup key (call c locks) ≡ some mine
unfolding call acquire release
call_keeps key mine (acquiring now token k ttl) locks foreign here = elim (Bool-cases (k == key)) [
  | inl same ↦
      let at = (string_eq.beq_iff k key).0 same in
      let there : lookup k locks ≡ some mine =
        subst (λ (t : String). lookup t locks ≡ some mine) (sym at) here in
      let busy : is_held now (lookup k locks) ≡ true = ground (arith, there, foreign at) in
      ground (arith, busy, here)
  | inr other ↦
      let state : MemoryLockState = record { token = token; expires_at = now +ℤ ttl } in
      ground (arith, other, here, lookup-insert k key state locks)
]
call_keeps key mine (releasing k token) locks foreign here = elim (Bool-cases (k == key)) [
  | inl same ↦
      let at = (string_eq.beq_iff k key).0 same in
      let there : lookup k locks ≡ some mine =
        subst (λ (t : String). lookup t locks ≡ some mine) (sym at) here in
      let wrong : (mine.token == token) ≡ false = ground (
        arith,
        same,
        foreign,
        string_eq.beq_iff mine.token token,
        string_eq.beq_iff token mine.token,
      ) in
      ground (arith, there, wrong, here)
  | inr other ↦ elim (Option-cases (lookup k locks)) [
    | inl free ↦ ground (arith, free, here)
    | inr (state, taken) ↦ ground (arith, taken, other, here, lookup-erase k key locks)
  ]
]

run_keeps :
    (key : String) (mine : MemoryLockState) (cs : List Call) (locks : Locks)
    → All (IsForeign key mine.token mine.expires_at) cs
    → lookup key locks ≡ some mine
    → lookup key (run cs locks) ≡ some mine
unfolding run
run_keeps key mine [] locks foreign here = here
run_keeps key mine (c ∷ cs) locks (f, foreign) here =
    run_keeps key mine cs (call c locks) foreign (call_keeps key mine c locks f here)

-- Once a lock is acquired, every other acquisition of its key before it expires is refused, whatever
-- calls come between, if they are made before it expires and do not give it back with its own token.
pub acquire-acquire :
    (now ttl : ℤ) (token key : String) (locks : Locks) (cs : List Call) (later other_ttl : ℤ)
    (other : String)
    → (acquire now token key ttl locks).0 ≡ ok token
    → All (IsForeign key token (now +ℤ ttl)) cs
    → later <ℤ now +ℤ ttl
    → acquire later other key other_ttl (run cs (acquire now token key ttl locks).1) ≡ (
      err (errorf "lock %s is already held" (str key ∷ [])),
      run cs (acquire now token key ttl locks).1,
    )
unfolding acquire
acquire-acquire now ttl token key locks cs later other_ttl other got foreign early =
    let mine : MemoryLockState = record { token = token; expires_at = now +ℤ ttl } in
    let locks' = (acquire now token key ttl locks).1 in
    let first : lookup key locks' ≡ some mine = elim (Bool-cases (is_held now (lookup key locks))) [
      | inl busy ↦ absurd (ground (arith, busy, got))
      | inr free ↦ ground (arith, free, lookup-insert key key mine locks, ==_refl key)
    ] in
    let kept : lookup key (run cs locks') ≡ some mine =
      run_keeps key mine cs locks' foreign first in
    let busy : is_held later (lookup key (run cs locks')) ≡ true = ground (arith, kept, early) in
    ground (arith, busy)
