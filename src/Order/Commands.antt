-- ===== src/Order/Commands.antt =====
-- app/order-service/internal/application/order_command.go. The clock is read once in each command:
-- `now` is that reading. The program service and the lock service are interfaces of the source.
pub mod Evolution
pub mod Service
pub mod History
pub mod Payment
use ticket_hub.Common.{
  ℤ, pos, String, ◌≡◌, Bool, true, false, not, Option, none, some, List, ◌==◌, int_eq,
  if◌then◌else◌, ltb_ℤ,
}
use ticket_hub.Common.Fmt.{◌<>◌, show_ℤ}
use ticket_hub.Errors.{
  Code, order_state_conflict, infrastructure, GoError, new_error, Result, ok, err, Status,
}
use ticket_hub.Errors.Grpc.{is_code}
use ticket_hub.Action.{Action, pure, fail, gets, unless, ◌>>=◌, ◌>>◌}
use ticket_hub.Lock.{Locker}
use ticket_hub.Order.Domain.{
  Order, no_pay, paid, cancel, refund, other_status, mark_paid, mark_canceled, mark_refund,
  ticket_count, is_paid, is_canceled, is_refunded,
}
use ticket_hub.Order.Domain
use ticket_hub.Order.Store.{OrderStore, system_lookup}

-- What the calls of the program service are told of an order.
pub record SeatRequest : Type 0 where
  pub order_number : ℤ
  pub program_id : ℤ
  pub ticket_category_id : ℤ
  pub seat_ids : List ℤ
  pub ticket_user_ids : List ℤ

-- `ProgramSeatClient`, over the state `P` of the program service.
pub record ProgramSeatClient (P : Type 0) : Type 0 where
  pub confirm_seats_sold : SeatRequest → Action P (Unit {0})
  pub release_seats : SeatRequest → ℤ → Action P (Unit {0})

pub record World (S P L : Type 0) : Type 0 where
  pub orders : S
  pub program : P
  pub locks : L

pub record PaymentCallbackResult : Type 0 where
  pub status : Domain.Status
  pub refund_required : Bool
  pub amount_cent : ℤ

abbrev pub request_of : Order → SeatRequest
request_of o = record {
  order_number = o.order_number;
  program_id = o.program_id;
  ticket_category_id = o.ticket_category_id;
  seat_ids = o.seat_ids;
  ticket_user_ids = o.ticket_user_ids;
}

-- The zero value of `PaymentCallbackResult` (its status is the empty text), and of `Order`.
abbrev pub zero_result : PaymentCallbackResult
zero_result = record { status = other_status ""; refund_required = false; amount_cent = pos 0 }

abbrev pub result_of : Order → PaymentCallbackResult
result_of o = record { status = o.status; refund_required = false; amount_cent = o.amount_cent }

abbrev pub no_system_lookup : GoError
no_system_lookup = new_error infrastructure "system order lookup is not supported"

module _ {S P L : Type 0} (store : OrderStore S) (client : ProgramSeatClient P) where
  abbrev pub on_orders : {A : Type 0} → Action S A → Action (World S P L) A
  on_orders m w = let (r, s) = m w.orders in (r, record w { orders = s })

  abbrev pub on_program : {A : Type 0} → Action P A → Action (World S P L) A
  on_program m w = let (r, p) = m w.program in (r, record w { program = p })

  -- `cancel`
  unfoldable pub cancel_order : ℤ → ℤ → ℤ → Action (World S P L) (Unit {0})
  cancel_order now n u = do
    current ← gets (λ w. store.find n u w.orders)
    canceled ← gets (λ w. mark_canceled now current)
    unless (is_canceled current.status) (on_orders (store.update canceled))
    on_program (client.release_seats (request_of canceled) (ticket_count canceled))

  -- `persistPaid`; it gives the order as it is afterwards.
  unfoldable pub persist_paid : ℤ → Order → Action (World S P L) Order
  persist_paid now current = do
    marked ← gets (λ w. mark_paid now current)
    unless (is_paid current.status) (on_orders (store.update marked))
    on_program (client.confirm_seats_sold (request_of marked))
    pure marked

  -- `markPaid`
  unfoldable pub mark_order_paid : ℤ → ℤ → ℤ → Action (World S P L) (Unit {0})
  mark_order_paid now n u = do
    current ← gets (λ w. store.find n u w.orders)
    marked ← persist_paid now current
    pure tt

  -- The body of `CloseExpired`.
  unfoldable pub close_expired :
      (GoError → Option Status) → ℤ → ℤ → ℤ → Action (World S P L) (Unit {0})
  close_expired from_error now n u w = elim (store.find n u w.orders) [
    | err e ↦ if is_code from_error e Code.not_found then (ok tt, w) else (err e, w)
    | ok current ↦ elim current.status [
      | paid ↦ (ok tt, w)
      | refund ↦ (ok tt, w)
      | no_pay ↦ cancel_order now n u w
      | cancel ↦ cancel_order now n u w
      | other_status s ↦
          (err (new_error order_state_conflict "order cannot be closed in current state"), w)
    ]
  ]

  -- The case of `HandlePaymentCallback` for an order that is not paid, or that is paid already.
  unfoldable pub settle_payment :
      ℤ
      → Order
      → PaymentCallbackResult
      → World S P L
      → PaymentCallbackResult × Result (Unit {0}) × World S P L
  settle_payment now current result w =
      let (r, w') = persist_paid now current w in
      elim r [
        | err e ↦ (result, err e, w')
        | ok marked ↦ (record result { status = marked.status }, ok tt, w')
      ]

  -- The switch of `HandlePaymentCallback` on the status, for a payment that was made with the amount
  -- of the order.
  unfoldable pub accept_payment :
      ℤ
      → Order
      → PaymentCallbackResult
      → World S P L
      → PaymentCallbackResult × Result (Unit {0}) × World S P L
  accept_payment now current result w = elim current.status [
    | cancel ↦ (record result { refund_required = true }, ok tt, w)
    | refund ↦ (result, ok tt, w)
    | no_pay ↦ settle_payment now current result w
    | paid ↦ settle_payment now current result w
    | other_status s ↦ (
      result,
      err (new_error order_state_conflict "order cannot accept payment callback in current state"),
      w,
    )
  ]

  -- The body of `HandlePaymentCallback`: its result is written as it goes, also where it fails.
  unfoldable pub handle_payment_callback :
      ℤ → ℤ → ℤ → Bool → World S P L → PaymentCallbackResult × Result (Unit {0}) × World S P L
  handle_payment_callback now n amount_cent paid_flag w =
      elim (system_lookup store no_system_lookup n w.orders) [
        | err e ↦ (zero_result, err e, w)
        | ok current ↦
            let result = result_of current in
            if not (amount_cent == current.amount_cent)
            then (
              result,
              err (new_error Code.invalid_argument "payment amount does not match order amount"),
              w,
            )
            else if not paid_flag
            then (result, ok tt, w)
            else accept_payment now current result w
      ]

  -- The body of `MarkRefunded`: the order as it is afterwards, and an error. Where no order was found
  -- there is none to give.
  unfoldable pub mark_refunded : ℤ → ℤ → Action (World S P L) Order
  mark_refunded now n = do
    found ← gets (λ w. system_lookup store no_system_lookup n w.orders)
    current ← gets (λ w. mark_refund now found)
    unless (is_refunded found.status) (on_orders (store.update current))
    pure current
