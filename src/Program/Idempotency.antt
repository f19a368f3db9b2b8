-- ===== src/Program/Idempotency.antt =====
-- app/program-service/internal/infrastructure/memory/idempotency_store.go, with the states of
-- application/idempotency.go. A method reads the clock once for each time.Now() of the source; both
-- readings of `Begin` are parameters.
use ticket_hub.Common.{
  ℕ, zero, suc, ◌+◌, ◌-◌, ◌*◌, ◌/◌, ◌%◌, ◌^◌, ◌≤◌, ◌<◌, ℤ, pos, negsuc, String, ◌≡◌, ◌≢◌, refl, sym,
  ap, subst, ◌∙◌, ◌↔◌, ◌⊎◌, inl, inr, Bool, true, false, not, ◌&&◌, ◌||◌, Option, none, some, List,
  [], ◌∷◌, ◌++◌, map, arith, ltb, leb, nat_eqb, if◌then◌else◌, Bool-cases, Option-cases, Eq, ◌==◌,
  nat_eq, string_eq, int_eq, ==_refl, ==_ne, length, get_elem?, take, length-append, length-take,
  All, Mem, pos_part, neg_part, sub_ℕ, ◌+ℤ◌, ◌-ℤ◌, ◌*ℤ◌, ◌≤ℤ◌, ◌<ℤ◌, ltb_ℤ, leb_ℤ, eqb_ℤ,
  eq_of_parts, eqb_ℤ_iff, +ℤ_parts, -ℤ_parts, int_laws, IsInt64, wrap64, wrap64_id, wrap64-IsInt64,
  add64, sub64, mul64, quotient, remainder, quotient_nonneg, remainder_nonneg, bits64,
  neg_part-zero, pos_of, add64-pos, mul64-pos,
}
use ticket_hub.Common.Dict.{Dict, lookup, insert, erase, lookup-insert, lookup-erase}
use ticket_hub.Errors.{
  Code, conflict, duplicate_submission, GoError, new_error, Result, ok, err, Result-cases,
}
use ticket_hub.Action.{Action}
pub mod Keys

-- The constants of `IdempotencyState`.
pub data IdempotencyState : Type 0 where
  acquired processing completed : IdempotencyState

pub record IdempotencyResult : Type 0 where
  pub state : IdempotencyState
  pub order_number : ℤ

pub record IdempotencyEntry : Type 0 where
  pub fingerprint : String
  pub state : IdempotencyState
  pub order_number : ℤ
  pub expires_at : ℤ

abbrev pub Entries : Type 0
Entries = Dict String IdempotencyEntry

abbrev pub is_completed : IdempotencyState → Bool
is_completed completed = true
is_completed s = false

-- What a key that is free is set to.
abbrev pub processing_entry : String → ℤ → IdempotencyEntry
processing_entry fingerprint expires_at = record {
  fingerprint = fingerprint;
  state = processing;
  order_number = pos 0;
  expires_at = expires_at;
}

abbrev pub acquired_result : IdempotencyResult
acquired_result = record { state = acquired; order_number = pos 0 }

-- The end of `Begin`, for a key that is free.
unfoldable pub acquire : String → String → ℤ → Action Entries IdempotencyResult
acquire key fingerprint expires_at entries =
    (ok acquired_result, insert key (processing_entry fingerprint expires_at) entries)

-- `Begin`: `now` is the reading for the expiry, `later` the one for the new entry.
unfoldable pub begin : ℤ → ℤ → String → String → ℤ → Action Entries IdempotencyResult
unfolding acquire
begin now later key fingerprint ttl entries = elim (lookup key entries) [
  | none ↦ acquire key fingerprint (later +ℤ ttl) entries
  | some entry ↦
      if not (ltb_ℤ now entry.expires_at)
      then acquire key fingerprint (later +ℤ ttl) entries
      else if not (entry.fingerprint == fingerprint)
      then (
        err (new_error duplicate_submission "idempotency key was reused with a different request"),
        entries,
      )
      else (ok (record { state = entry.state; order_number = entry.order_number }), entries)
]

-- `Complete` at the time `now`.
unfoldable pub complete : ℤ → String → String → ℤ → ℤ → Action Entries (Unit {0})
complete now key fingerprint order_number ttl entries = elim (lookup key entries) [
  | none ↦ (err (new_error conflict "order idempotency ownership was lost"), entries)
  | some entry ↦
      if not (entry.fingerprint == fingerprint)
      then (err (new_error conflict "order idempotency ownership was lost"), entries)
      else (
        ok tt,
        insert key
            (record entry {
              state = completed;
              order_number = order_number;
              expires_at = now +ℤ ttl;
            })
            entries,
      )
]

-- `Abort`
unfoldable pub abort : String → String → Action Entries (Unit {0})
abort key fingerprint entries = elim (lookup key entries) [
  | none ↦ (ok tt, entries)
  | some entry ↦
      if entry.fingerprint == fingerprint && not (is_completed entry.state)
      then (ok tt, erase key entries)
      else (ok tt, entries)
]
