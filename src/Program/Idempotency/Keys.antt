-- ===== src/Program/Idempotency/Keys.antt =====
-- app/program-service/internal/infrastructure/memory/idempotency_store.go: what a key stands for.
use ticket_hub.Common.{
  ℤ, pos, String, ◌≡◌, ◌≢◌, sym, ap, subst, inl, inr, true, false, not, ◌&&◌, none, some, List, [],
  ◌∷◌, All, arith, if◌then◌else◌, Bool-cases, Option-cases, ◌==◌, nat_eq, string_eq, int_eq,
  ==_refl, ◌+ℤ◌, ◌<ℤ◌, ltb_ℤ,
}
use ticket_hub.Common.Dict.{lookup, lookup-insert, lookup-erase}
use ticket_hub.Errors.{duplicate_submission, new_error, ok, err}
use ticket_hub.Program.Idempotency.{
  acquired, processing, completed, IdempotencyEntry, Entries, is_completed, processing_entry,
  acquired_result, acquire, begin, complete, abort,
}

-- A key that has not expired at the time `now`.
abbrev pub Live : ℤ → String → Entries → IdempotencyEntry → Type 0
Live now key entries entry = (lookup key entries ≡ some entry) × (now <ℤ entry.expires_at)

-- A call of the store: its times, a key, the fingerprint of a request, and what else it takes.
pub data Call : Type 0 where
  beginning : ℤ → ℤ → String → String → ℤ → Call
  completing : ℤ → String → String → ℤ → ℤ → Call
  aborting : String → String → Call

unfoldable pub call : Call → Entries → Entries
unfolding begin complete abort
call (beginning now later key f ttl) entries = (begin now later key f ttl entries).1
call (completing now key f number ttl) entries = (complete now key f number ttl entries).1
call (aborting key f) entries = (abort key f entries).1

unfoldable pub run : List Call → Entries → Entries
unfolding call
run [] entries = entries
run (c ∷ cs) entries = run cs (call c entries)

-- The call is neither a `Begin` of the key from the time `until` on, nor the end of its request.
abbrev pub IsForeign : String → String → ℤ → Call → Type 0
IsForeign key fingerprint until (beginning now later k f ttl) = k ≡ key → now <ℤ until
IsForeign key fingerprint until (completing now k f number ttl) =
    (k == key && f == fingerprint) ≡ false
IsForeign key fingerprint until (aborting k f) = (k == key && f == fingerprint) ≡ false

foreign_fingerprint :
    (key fingerprint k f : String)
    → (k == key) ≡ true
    → (k == key && f == fingerprint) ≡ false
    → (fingerprint == f) ≡ false
foreign_fingerprint key fingerprint k f same foreign =
    ground (arith, same, foreign, string_eq.beq_iff fingerprint f, string_eq.beq_iff f fingerprint)

call_keeps :
    (key : String) (mine : IdempotencyEntry) (c : Call) (entries : Entries)
    → IsForeign key mine.fingerprint mine.expires_at c
    → lookup key entries ≡ some mine
    → lookup key (call c entries) ≡ some mine
unfolding call begin acquire complete abort
call_keeps key mine (beginning now later k f ttl) entries foreign here =
    elim (Bool-cases (k == key)) [
      | inl same ↦
          let at = (string_eq.beq_iff k key).0 same in
          let there : lookup k entries ≡ some mine =
            subst (λ (t : String). lookup t entries ≡ some mine) (sym at) here in
          let live : ltb_ℤ now mine.expires_at ≡ true = ground (arith, foreign at) in
          ground (arith, there, live, here, Bool-cases (mine.fingerprint == f))
      | inr other ↦
          let set = lookup-insert k key (processing_entry f (later +ℤ ttl)) entries in
          elim (Option-cases (lookup k entries)) [
            | inl free ↦ ground (arith, free, other, set, here)
            | inr (entry, held) ↦ ground (
              arith,
              held,
              other,
              set,
              here,
              Bool-cases (ltb_ℤ now entry.expires_at),
              Bool-cases (entry.fingerprint == f),
            )
          ]
    ]
call_keeps key mine (completing now k f number ttl) entries foreign here =
    elim (Bool-cases (k == key)) [
      | inl same ↦
          let at = (string_eq.beq_iff k key).0 same in
          let there : lookup k entries ≡ some mine =
            subst (λ (t : String). lookup t entries ≡ some mine) (sym at) here in
          let wrong = foreign_fingerprint key mine.fingerprint k f same foreign in
          ground (arith, there, wrong, here)
      | inr other ↦ elim (Option-cases (lookup k entries)) [
        | inl free ↦ ground (arith, free, here)
        | inr (entry, held) ↦
            let stored : IdempotencyEntry = record entry {
              state = completed;
              order_number = number;
              expires_at = now +ℤ ttl;
            } in
            ground (
              arith,
              held,
              other,
              here,
              lookup-insert k key stored entries,
              Bool-cases (entry.fingerprint == f),
            )
      ]
    ]
call_keeps key mine (aborting k f) entries foreign here = elim (Bool-cases (k == key)) [
  | inl same ↦
      let at = (string_eq.beq_iff k key).0 same in
      let there : lookup k entries ≡ some mine =
        subst (λ (t : String). lookup t entries ≡ some mine) (sym at) here in
      let wrong = foreign_fingerprint key mine.fingerprint k f same foreign in
      ground (arith, there, wrong, here)
  | inr other ↦ elim (Option-cases (lookup k entries)) [
    | inl free ↦ ground (arith, free, here)
    | inr (entry, held) ↦ ground (
      arith,
      held,
      other,
      here,
      lookup-erase k key entries,
      Bool-cases (entry.fingerprint == f && not (is_completed entry.state)),
    )
  ]
]

run_keeps :
    (key : String) (mine : IdempotencyEntry) (cs : List Call) (entries : Entries)
    → All (IsForeign key mine.fingerprint mine.expires_at) cs
    → lookup key entries ≡ some mine
    → lookup key (run cs entries) ≡ some mine
unfolding run
run_keeps key mine [] entries foreign here = here
run_keeps key mine (c ∷ cs) entries (f, foreign) here =
    run_keeps key mine cs (call c entries) foreign (call_keeps key mine c entries f here)

begin-stored :
    (now later : ℤ) (key f : String) (ttl : ℤ) (entries : Entries)
    → (begin now later key f ttl entries).0 ≡ ok acquired_result
    → ((entry : IdempotencyEntry) → lookup key entries ≡ some entry → entry.state ≢ acquired)
    → lookup key (begin now later key f ttl entries).1 ≡ some (processing_entry f (later +ℤ ttl))
unfolding begin acquire
begin-stored now later key f ttl entries e apart =
    let set = lookup-insert key key (processing_entry f (later +ℤ ttl)) entries in
    let same = ==_refl key in
    elim (Option-cases (lookup key entries)) [
      | inl free ↦ ground (arith, free, set, same)
      | inr (entry, held) ↦ elim (Bool-cases (ltb_ℤ now entry.expires_at)) [
        | inr expired ↦ ground (arith, held, expired, set, same)
        | inl live ↦
            absurd
              (ground (arith, held, live, apart entry held, Bool-cases (entry.fingerprint == f)))
      ]
    ]

-- Once `Begin` gives a key to a request, where the key was not stored as acquired, each `Begin` of
-- that key before the time at which it expires is told that the order is in the making, or is
-- refused where it is another request, and changes nothing, whatever calls come between, if none is
-- a `Begin` of the key at or after that time, and none completes or aborts the key with the
-- fingerprint of the request.
pub begin-begin :
    (now later : ℤ) (key f : String) (ttl : ℤ) (entries : Entries) (cs : List Call)
    (now' later' : ℤ) (f' : String) (ttl' : ℤ)
    → (begin now later key f ttl entries).0 ≡ ok acquired_result
    → ((entry : IdempotencyEntry) → lookup key entries ≡ some entry → entry.state ≢ acquired)
    → All (IsForeign key f (later +ℤ ttl)) cs
    → now' <ℤ (later +ℤ ttl)
    → let entries' = run cs (begin now later key f ttl entries).1 in
      begin now' later' key f' ttl' entries' ≡ (
        (if f == f'
            then ok (record { state = processing; order_number = pos 0 })
            else err (
                new_error duplicate_submission
                  "idempotency key was reused with a different request")),
        entries',
      )
unfolding begin acquire
begin-begin now later key f ttl entries cs now' later' f' ttl' e apart foreign early =
    let mine = processing_entry f (later +ℤ ttl) in
    let entries' = (begin now later key f ttl entries).1 in
    let first : lookup key entries' ≡ some mine =
      begin-stored now later key f ttl entries e apart in
    let kept : lookup key (run cs entries') ≡ some mine =
      run_keeps key mine cs entries' foreign first in
    let test : ltb_ℤ now' (later +ℤ ttl) ≡ true = ground (arith, early) in
    ground (arith, kept, test, Bool-cases (f == f'))

-- A request that was completed is answered with its order number for as long as the result is kept,
-- and changes nothing.
pub begin-complete :
    (now now' later : ℤ) (key f : String) (number ttl ttl' : ℤ) (entries : Entries)
    → (complete now key f number ttl entries).0 ≡ ok tt
    → now' <ℤ (now +ℤ ttl)
    → let entries' = (complete now key f number ttl entries).1 in
      begin now' later key f ttl' entries'
      ≡ (ok (record { state = completed; order_number = number }), entries')
unfolding begin complete
begin-complete now now' later key f number ttl ttl' entries e early =
    let test : ltb_ℤ now' (now +ℤ ttl) ≡ true = ground (arith, early) in
    elim (Option-cases (lookup key entries)) [
      | inl free ↦ absurd (ground (arith, free))
      | inr (entry, held) ↦ elim (Bool-cases (entry.fingerprint == f)) [
        | inr other ↦ absurd (ground (arith, held, other))
        | inl own ↦
            let stored : IdempotencyEntry = record entry {
              state = completed;
              order_number = number;
              expires_at = now +ℤ ttl;
            } in
            ground (arith, held, own, lookup-insert key key stored entries, ==_refl key, test)
      ]
    ]

-- An abort frees a key that its request holds, so that it may be acquired again; a completed one is
-- kept, and the keys of other requests too.
pub abort-lookup :
    (key f : String) (entries : Entries) (k : String)
    → lookup k (abort key f entries).1 ≡ (
        if key == k
        then elim (lookup key entries) [
          | none ↦ none
          | some entry ↦
              if entry.fingerprint == f && not (is_completed entry.state) then none else some entry
        ]
        else lookup k entries)
unfolding abort
abort-lookup key f entries k =
    let at : (key == k ≡ true) → lookup k entries ≡ lookup key entries =
      λ same. ap (λ t. lookup t entries) (sym ((string_eq.beq_iff key k).0 same)) in
    elim (Bool-cases (key == k)) [
      | inl same ↦ elim (Option-cases (lookup key entries)) [
        | inl free ↦ ground (arith, same, at same, free)
        | inr (entry, held) ↦ ground (
          arith,
          same,
          at same,
          held,
          lookup-erase key k entries,
          Bool-cases (entry.fingerprint == f && not (is_completed entry.state)),
        )
      ]
      | inr other ↦ elim (Option-cases (lookup key entries)) [
        | inl free ↦ ground (arith, other, free)
        | inr (entry, held) ↦ ground (
          arith,
          other,
          held,
          lookup-erase key k entries,
          Bool-cases (entry.fingerprint == f && not (is_completed entry.state)),
        )
      ]
    ]
