-- ===== src/Order/Domain.antt =====
-- app/order-service/internal/domain/order/order.go.
pub mod Transitions
use ticket_hub.Common.{
  ℤ, pos, String, ◌≡◌, ◌⊎◌, Bool, true, false, Option, none, some, List, [], ltb, if◌then◌else◌,
  length,
}
use ticket_hub.Errors.{order_state_conflict, new_error, Result, ok, err}

-- The constants of the string type `Status`, and any other text.
pub data Status : Type 0 where
  no_pay paid cancel refund : Status
  other_status : String → Status

pub record Order : Type 0 where
  pub order_number : ℤ
  pub program_id : ℤ
  pub user_id : ℤ
  pub ticket_category_id : ℤ
  pub seat_ids : List ℤ
  pub ticket_user_ids : List ℤ
  pub amount_cent : ℤ
  pub status : Status
  pub created_at : ℤ
  pub paid_at : Option ℤ
  pub canceled_at : Option ℤ
  pub refunded_at : Option ℤ

-- `New`
unfoldable pub new_order : ℤ → ℤ → ℤ → ℤ → ℤ → Order
new_order order_number program_id user_id amount_cent now = record {
  order_number = order_number;
  program_id = program_id;
  user_id = user_id;
  ticket_category_id = pos 0;
  seat_ids = [];
  ticket_user_ids = [];
  amount_cent = amount_cent;
  status = no_pay;
  created_at = now;
  paid_at = none;
  canceled_at = none;
  refunded_at = none;
}

-- `MarkPaid`; an order that is refused stays as it was.
unfoldable pub mark_paid : ℤ → Order → Result Order
mark_paid now o = elim o.status [
  | paid ↦ ok o
  | cancel ↦ err (new_error order_state_conflict "canceled order must be refunded instead of paid")
  | no_pay ↦ ok (record o { status = paid; paid_at = some now })
  | _ ↦ err (new_error order_state_conflict "order cannot be paid in current state")
]

-- `Cancel`
unfoldable pub mark_canceled : ℤ → Order → Result Order
mark_canceled now o = elim o.status [
  | cancel ↦ ok o
  | no_pay ↦ ok (record o { status = cancel; canceled_at = some now })
  | _ ↦ err (new_error order_state_conflict "order cannot be canceled in current state")
]

-- `MarkRefund`
unfoldable pub mark_refund : ℤ → Order → Result Order
mark_refund now o = elim o.status [
  | refund ↦ ok o
  | cancel ↦ ok (record o { status = refund; refunded_at = some now })
  | _ ↦ err (new_error order_state_conflict "only canceled order can be refunded")
]

-- `TicketCount`
unfoldable pub ticket_count : Order → ℤ
ticket_count o =
    if ltb 0 (length o.seat_ids) then pos (length o.seat_ids) else pos (length o.ticket_user_ids)

abbrev pub is_paid : Status → Bool
is_paid paid = true
is_paid s = false

abbrev pub is_canceled : Status → Bool
is_canceled cancel = true
is_canceled s = false

abbrev pub is_refunded : Status → Bool
is_refunded refund = true
is_refunded s = false

-- The life of an order: it is paid or canceled, and a canceled one may be refunded.
pub data Step (s t : Status) : Type 0 where
  pays : s ≡ no_pay → t ≡ paid → Step s t
  cancels : s ≡ no_pay → t ≡ cancel → Step s t
  refunds : s ≡ cancel → t ≡ refund → Step s t

-- What a step leaves as it was: all but the status and the times of payment, cancellation, refund.
pub record SameOrder (o o' : Order) : Type 0 where
  pub number_same : o'.order_number ≡ o.order_number
  pub program_same : o'.program_id ≡ o.program_id
  pub user_same : o'.user_id ≡ o.user_id
  pub category_same : o'.ticket_category_id ≡ o.ticket_category_id
  pub seats_same : o'.seat_ids ≡ o.seat_ids
  pub ticket_users_same : o'.ticket_user_ids ≡ o.ticket_user_ids
  pub amount_same : o'.amount_cent ≡ o.amount_cent
  pub created_same : o'.created_at ≡ o.created_at

-- What a marking gives, where `done` says that the order was marked before: the same order, or the
-- order after one step.
abbrev pub Marked : Bool → Order → Order → Type 0
Marked done o o' =
    ((done ≡ true) × (o' ≡ o)) ⊎ ((done ≡ false) × Step o.status o'.status × SameOrder o o')
