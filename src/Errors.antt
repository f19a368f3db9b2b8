-- ===== src/Errors.antt =====
-- pkg/errors/codes.go and pkg/errors/error.go: error codes, and errors as values.
pub mod Grpc
mod Tests
use text.Mathlib.TextEquality.{eq_iff}
use ticket_hub.Common.{
  ◌⊎◌, inl, inr, zero, suc, refl, sym, subst, ◌∙◌, nat_eqb, ◌&&◌, [], ◌∷◌, ==_refl, ℕ, ℤ, String,
  ◌≡◌, ◌↔◌, Bool, true, false, Option, none, some, List, arith, Eq, ◌==◌, string_eq,
}

-- `Code` is a string type: the named constants, and any other text.
pub data Code : Type 0 where
  code_ok invalid_argument unauthenticated forbidden not_found conflict : Code
  too_many_requests inventory_not_enough seat_unavailable order_state_conflict : Code
  duplicate_submission captcha_required captcha_invalid infrastructure internal : Code
  other_code : String → Code

-- The status codes of google.golang.org/grpc/codes that the program names.
pub data StatusCode : Type 0 where
  ok_status canceled unknown invalid_argument deadline_exceeded not_found already_exists :
      StatusCode
  permission_denied resource_exhausted failed_precondition aborted out_of_range : StatusCode
  unimplemented internal unavailable data_loss unauthenticated : StatusCode

-- The detail `errdetails.ErrorInfo` of a status.
pub record ErrorInfo : Type 0 where
  pub reason : Code
  pub domain : String

pub record Status : Type 0 where
  pub code : StatusCode
  pub message : String
  pub details : List ErrorInfo

-- An argument of `fmt.Errorf`.
pub data Arg : Type 0 where
  num : ℤ → Arg
  str : String → Arg

-- The errors of the program: an `AppError` without and with a cause, what `fmt.Errorf` and
-- `errors.New` build (the text is not rendered), what `errors.Join` builds, and a gRPC status.
pub data GoError : Type 0 where
  app_error : Code → String → GoError
  wrapped : Code → String → GoError → GoError
  errorf : String → List Arg → GoError
  join : GoError → GoError → GoError
  status_error : Status → GoError

-- Go's `(value, error)`, where the value is read only if the error is nil.
pub data Result {ℓ} (A : Type ℓ) : Type ℓ where
  ok : A → Result A
  err : GoError → Result A

infixl 5 ◌>>=◌
abbrev pub ◌>>=◌ {ℓ κ} : {A : Type ℓ} {B : Type κ} → Result A → (A → Result B) → Result B
ok a >>= f = f a
err e >>= f = err e

pub Result-cases {ℓ} :
    {A : Type ℓ} (r : Result A) → ((e : GoError) × (r ≡ err e)) ⊎ ((a : A) × (r ≡ ok a))
Result-cases (ok a) = inr (a, refl)
Result-cases (err e) = inl (e, refl)

-- `therrors.New`
abbrev pub new_error : Code → String → GoError
new_error code message = app_error code message

-- `errors.As(err, &appErr)`: the first `AppError` of the tree, in preorder.
unfoldable pub as_app_error : GoError → Option Code
as_app_error (app_error c m) = some c
as_app_error (wrapped c m e) = some c
as_app_error (errorf f a) = none
as_app_error (join a b) = elim (as_app_error a) [ some c ↦ some c | none ↦ as_app_error b ]
as_app_error (status_error s) = none

abbrev pub rank : Code → ℕ
rank code_ok = 0
rank Code.invalid_argument = 1
rank Code.unauthenticated = 2
rank forbidden = 3
rank Code.not_found = 4
rank conflict = 5
rank too_many_requests = 6
rank inventory_not_enough = 7
rank seat_unavailable = 8
rank order_state_conflict = 9
rank duplicate_submission = 10
rank captcha_required = 11
rank captcha_invalid = 12
rank infrastructure = 13
rank Code.internal = 14
rank (other_code s) = 15

abbrev pub other_text : Code → String
other_text (other_code s) = s
other_text c = ""

abbrev pub code_eqb : Code → Code → Bool
code_eqb a b = nat_eqb (rank a) (rank b) && other_text a == other_text b

-- The constants in the order of `rank`.
abbrev named_codes : List Code
named_codes =
    code_ok ∷ Code.invalid_argument ∷ Code.unauthenticated ∷ forbidden ∷ Code.not_found ∷ conflict
    ∷ too_many_requests ∷ inventory_not_enough ∷ seat_unavailable ∷ order_state_conflict
    ∷ duplicate_submission ∷ captcha_required ∷ captcha_invalid ∷ infrastructure ∷ Code.internal
    ∷ []

abbrev code_at : List Code → ℕ → String → Code
code_at [] n s = other_code s
code_at (c ∷ cs) zero s = c
code_at (c ∷ cs) (suc n) s = code_at cs n s

code_at-rank : (c : Code) → code_at named_codes (rank c) (other_text c) ≡ c
code_at-rank code_ok = refl
code_at-rank c = refl

code_eqb_refl : (a : Code) → code_eqb a a ≡ true
code_eqb_refl (other_code s) = ==_refl s
code_eqb_refl c = refl

pub code_eqb_iff : (a b : Code) → (code_eqb a b ≡ true) ↔ (a ≡ b)
code_eqb_iff a b = (
  λ h. sym (code_at-rank a) ∙ same h ∙ code_at-rank b,
  λ e. subst (λ c. code_eqb a c ≡ true) e (code_eqb_refl a),
)
  where
    same :
        code_eqb a b ≡ true
        → code_at named_codes (rank a) (other_text a) ≡ code_at named_codes (rank b) (other_text b)
    same h =
        let ranks : rank a ≡ rank b = ground arith in
        let texts : other_text a ≡ other_text b =
          (eq_iff (other_text a) (other_text b)).0 (ground arith) in
        cc (ranks, texts)

instance abbrev pub code_eq : Eq Code
code_eq = record { beq = code_eqb; beq_iff = code_eqb_iff }

-- `isKnownCode`
unfoldable pub is_known_code : Code → Bool
is_known_code (other_code s) = false
is_known_code c = true

-- `string(code)`
unfoldable pub code_text : Code → String
code_text code_ok = "OK"
code_text Code.invalid_argument = "INVALID_ARGUMENT"
code_text Code.unauthenticated = "UNAUTHENTICATED"
code_text forbidden = "FORBIDDEN"
code_text Code.not_found = "NOT_FOUND"
code_text conflict = "CONFLICT"
code_text too_many_requests = "TOO_MANY_REQUESTS"
code_text inventory_not_enough = "INVENTORY_NOT_ENOUGH"
code_text seat_unavailable = "SEAT_UNAVAILABLE"
code_text order_state_conflict = "ORDER_STATE_CONFLICT"
code_text duplicate_submission = "DUPLICATE_SUBMISSION"
code_text captcha_required = "CAPTCHA_REQUIRED"
code_text captcha_invalid = "CAPTCHA_INVALID"
code_text infrastructure = "INFRASTRUCTURE_ERROR"
code_text Code.internal = "INTERNAL"
code_text (other_code s) = s
