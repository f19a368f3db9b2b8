-- ===== src/Errors/Grpc.antt =====
-- pkg/errors/error.go (CodeOf) and pkg/errors/grpc.go: how an error crosses a gRPC boundary.
-- `status.FromError` of google.golang.org/grpc is a parameter. What the program relies on is that
-- it recognises the error of a status.
use ticket_hub.Common.{
  String, ◌≡◌, ◌∙◌, ap, Bool, not, Option, none, some, List, [], ◌∷◌, arith, ◌==◌, string_eq,
  if◌then◌else◌, Bool-cases, Option-cases, inl, inr, ◌⊎◌,
}
use ticket_hub.Errors.{
  Code, code_ok, forbidden, conflict, too_many_requests, inventory_not_enough, seat_unavailable,
  order_state_conflict, duplicate_submission, captcha_required, captcha_invalid, infrastructure,
  StatusCode, ErrorInfo, Status, GoError, status_error, as_app_error, code_text, is_known_code,
  code_eqb, code_eqb_iff,
}

unfoldable pub grpc_code : Code → StatusCode
grpc_code Code.invalid_argument = StatusCode.invalid_argument
grpc_code Code.unauthenticated = StatusCode.unauthenticated
grpc_code forbidden = StatusCode.permission_denied
grpc_code Code.not_found = StatusCode.not_found
grpc_code conflict = StatusCode.failed_precondition
grpc_code seat_unavailable = StatusCode.failed_precondition
grpc_code order_state_conflict = StatusCode.failed_precondition
grpc_code duplicate_submission = StatusCode.failed_precondition
grpc_code captcha_required = StatusCode.failed_precondition
grpc_code captcha_invalid = StatusCode.invalid_argument
grpc_code inventory_not_enough = StatusCode.resource_exhausted
grpc_code too_many_requests = StatusCode.resource_exhausted
grpc_code infrastructure = StatusCode.unavailable
grpc_code c = StatusCode.internal

unfoldable pub code_from_grpc_status : StatusCode → Code
code_from_grpc_status StatusCode.invalid_argument = Code.invalid_argument
code_from_grpc_status StatusCode.unauthenticated = Code.unauthenticated
code_from_grpc_status StatusCode.permission_denied = forbidden
code_from_grpc_status StatusCode.not_found = Code.not_found
code_from_grpc_status StatusCode.failed_precondition = conflict
code_from_grpc_status StatusCode.already_exists = conflict
code_from_grpc_status StatusCode.aborted = conflict
code_from_grpc_status StatusCode.resource_exhausted = too_many_requests
code_from_grpc_status StatusCode.unavailable = infrastructure
code_from_grpc_status StatusCode.deadline_exceeded = infrastructure
code_from_grpc_status c = Code.internal

-- The loop over the details: the first one of this domain with a known code.
unfoldable pub code_from_details : List ErrorInfo → Option Code
code_from_details [] = none
code_from_details (info ∷ rest) =
    let later = code_from_details rest in
    if not (info.domain == "tickethub")
    then later
    else if is_known_code info.reason
    then some info.reason
    else later

-- `PublicMessage` of pkg/errors/mapper.go
unfoldable pub public_message : Code → String
unfolding code_text
public_message inventory_not_enough = "库存不足"
public_message seat_unavailable = "座位不可售"
public_message order_state_conflict = "订单状态冲突"
public_message duplicate_submission = "重复提交"
public_message captcha_required = "请完成验证码验证"
public_message captcha_invalid = "验证码无效或已过期"
public_message code_ok = code_text code_ok
public_message c = code_text c

unfoldable pub status_of : Code → Status
status_of c = record {
  code = grpc_code c;
  message = public_message c;
  details = record { reason = c; domain = "tickethub" } ∷ [];
}

module _ (from_error : GoError → Option Status) where
  unfoldable pub code_from_grpc : GoError → Option Code
  code_from_grpc e = elim (from_error e) [
    | none ↦ none
    | some s ↦ elim (code_from_details s.details) [
      | some c ↦ some c
      | none ↦ some (code_from_grpc_status s.code)
    ]
  ]

  -- `CodeOf` of an error that is not nil.
  unfoldable pub code_of : GoError → Code
  unfolding code_from_grpc
  code_of e = elim (as_app_error e) [
    | some c ↦ c
    | none ↦ elim (code_from_grpc e) [ some c ↦ c | none ↦ Code.internal ]
  ]

  unfoldable pub is_code : GoError → Code → Bool
  unfolding code_of
  is_code e c = code_eqb (code_of e) c

  -- `ToGRPC` on an error that is not nil. Adding an `ErrorInfo` to a status whose code is not OK
  -- does not fail.
  unfoldable pub to_grpc : GoError → GoError
  to_grpc e =
      if code_eqb (code_of e) Code.internal
      then elim (from_error e) [ some s ↦ e | none ↦ status_error (status_of (code_of e)) ]
      else status_error (status_of (code_of e))

  to_grpc-cases :
      (e : GoError)
      → (to_grpc e ≡ status_error (status_of (code_of e)))
        ⊎ ((to_grpc e ≡ e) × (code_of e ≡ Code.internal))
  unfolding to_grpc
  to_grpc-cases e = elim (Bool-cases (code_eqb (code_of e) Code.internal)) [
    | inl same ↦ elim (Option-cases (from_error e)) [
      | inl missing ↦ inl (rw (same, missing))
      | inr (s, found) ↦ inr (rw (same, found), (code_eqb_iff (code_of e) Code.internal).0 same)
    ]
    | inr other ↦ inl (rw other)
  ]

  -- An `AppError` that counts as INTERNAL has that code.
  wraps_no_status :
      (e : GoError) (c : Code) (s : Status)
      → as_app_error e ≡ some c
      → from_error e ≡ some s
      → code_of e ≡ Code.internal
      → (as_app_error e ≡ some Code.internal → from_error e ≡ none)
      → ⊥
  unfolding code_of
  wraps_no_status e c s app found internal bare =
      let exact : c ≡ Code.internal = ground (arith, app, internal) in
      ground (arith, found, bare (app ∙ ap some exact))

  -- `recognised`: `status.FromError` finds the status in the error of a status.
  module _ (recognised : (s : Status) → from_error (status_error s) ≡ some s) where
    code_of-status :
        (c : Code)
        → code_of (status_error (status_of c)) ≡ (if is_known_code c then c else Code.internal)
    unfolding code_of status_of code_from_details is_known_code grpc_code code_from_grpc_status
        as_app_error
    code_of-status code_ok = ground (arith, recognised (status_of code_ok))
    code_of-status c = ground (arith, recognised (status_of c))

    -- What a client reads: the code of the error of a status, as the server sees it.
    code_of-received :
        (e : GoError) (s : Status)
        → from_error e ≡ some s
        → as_app_error e ≡ none
        → code_of (status_error s) ≡ code_of e
    unfolding code_of code_from_grpc as_app_error
    code_of-received e s found plain = ground (arith, recognised s, found, plain)

    -- A client that gets the status that gRPC finds in what `ToGRPC` returns, as the error of that
    -- status, reads the code that the error has on the server, except that a code outside the named
    -- constants is read as INTERNAL. The error is not an `AppError` of the code INTERNAL in which
    -- `status.FromError` finds a status, and `status.FromError` finds the status in the error of a
    -- status.
    pub code_of-to_grpc :
        (e : GoError)
        → (as_app_error e ≡ some Code.internal → from_error e ≡ none)
        → (s : Status) × (from_error (to_grpc e) ≡ some s)
          × (code_of (status_error s)
              ≡ (if is_known_code (code_of e) then code_of e else Code.internal))
    unfolding is_known_code to_grpc
    code_of-to_grpc e bare =
        let sent : to_grpc e ≡ status_error (status_of (code_of e))
            → (s : Status) × (from_error (to_grpc e) ≡ some s)
              × (code_of (status_error s)
                  ≡ (if is_known_code (code_of e) then code_of e else Code.internal)) =
          λ status. (
            status_of (code_of e),
            rw status (recognised (status_of (code_of e))),
            code_of-status (code_of e),
          ) in
        elim (to_grpc-cases e) [
          | inl status ↦ sent status
          | inr (same, internal) ↦ elim (Option-cases (from_error e)) [
            | inl missing ↦ sent (rw ((code_eqb_iff (code_of e) Code.internal).1 internal, missing))
            | inr (s, found) ↦ elim (Option-cases (as_app_error e)) [
              | inl plain ↦ (s, rw same found, rw (code_of-received e s found plain, internal))
              | inr (c, app) ↦ absurd (wraps_no_status e c s app found internal bare)
            ]
          ]
        ]
