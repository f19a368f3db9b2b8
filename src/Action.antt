-- ===== src/Action.antt =====
-- Methods that read and write a state and may return an error: what was written stays written
-- when a later step fails.
use mathlib.Core.Bool.{Bool, true, false}
use ticket_hub.Errors.{GoError, Result, ok, err}

abbrev pub Action : Type 0 → Type 0 → Type 0
Action S A = S → Result A × S

abbrev pub pure : {S A : Type 0} → A → Action S A
pure a s = (ok a, s)

abbrev pub fail : {S A : Type 0} → GoError → Action S A
fail e s = (err e, s)

infixl 5 ◌>>=◌ ◌>>◌
abbrev pub ◌>>=◌ : {S A B : Type 0} → Action S A → (A → Action S B) → Action S B
◌>>=◌ m f s = let (r, s') = m s in elim r [ ok a ↦ f a s' | err e ↦ (err e, s') ]

abbrev pub ◌>>◌ : {S B : Type 0} → Action S (Unit {0}) → Action S B → Action S B
m >> k = m >>= λ _. k

-- A read that leaves the state alone.
abbrev pub gets : {S A : Type 0} → (S → Result A) → Action S A
gets f s = (f s, s)

-- A step that is made only if the flag is false.
abbrev pub unless : {S : Type 0} → Bool → Action S (Unit {0}) → Action S (Unit {0})
unless true m s = (ok tt, s)
unless false m s = m s
