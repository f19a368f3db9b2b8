-- ===== src/Errors/Tests.antt =====
-- The theorem on pkg/errors/grpc.go at a concrete error.
use ticket_hub.Common.{◌≡◌, refl, Option, none, some, if◌then◌else◌, []}
use ticket_hub.Errors.{
  Code, GoError, Status, new_error, order_state_conflict, errorf, join, status_error, is_known_code,
}
use ticket_hub.Errors.Grpc.{code_of, to_grpc, code_of-to_grpc}

-- `status.FromError` on an error that is a status itself.
abbrev plain_from_error : GoError → Option Status
plain_from_error (status_error s) = some s
plain_from_error e = none

abbrev conflict_error : GoError
conflict_error =
    join (errorf "first" [])
      (new_error order_state_conflict "order cannot be paid in current state")

code_of-to_grpc_example :
    (s : Status) × (plain_from_error (to_grpc plain_from_error conflict_error) ≡ some s)
    × (code_of plain_from_error (status_error s) ≡ (
        if is_known_code (code_of plain_from_error conflict_error)
        then code_of plain_from_error conflict_error
        else Code.internal))
code_of-to_grpc_example = code_of-to_grpc plain_from_error (λ s. refl) conflict_error (λ app. refl)
