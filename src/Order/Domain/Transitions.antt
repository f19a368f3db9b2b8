-- ===== src/Order/Domain/Transitions.antt =====
-- app/order-service/internal/domain/order/order.go: the state machine of an order.
use ticket_hub.Common.{ℤ, ◌≡◌, refl, inl, inr, arith, nat_eq, string_eq, int_eq}
use ticket_hub.Errors.{ok}
use ticket_hub.Order.Domain.{
  Order, Status, no_pay, paid, cancel, refund, mark_paid, mark_canceled, mark_refund, is_paid,
  is_canceled, is_refunded, pays, cancels, refunds, Marked,
}

-- One clause for each status, which the equation ties to the order.
mark_paid_from :
    (s : Status) (now : ℤ) (o : Order) {o' : Order}
    → o.status ≡ s
    → mark_paid now o ≡ ok o'
    → Marked (is_paid o.status) o o'
unfolding mark_paid
mark_paid_from no_pay now o at e = inr (ground arith, pays at (ground arith), ground arith)
mark_paid_from paid now o at e = inl (ground arith, ground arith)
mark_paid_from s now o at e = absurd (ground arith)

mark_canceled_from :
    (s : Status) (now : ℤ) (o : Order) {o' : Order}
    → o.status ≡ s
    → mark_canceled now o ≡ ok o'
    → Marked (is_canceled o.status) o o'
unfolding mark_canceled
mark_canceled_from no_pay now o at e = inr (ground arith, cancels at (ground arith), ground arith)
mark_canceled_from cancel now o at e = inl (ground arith, ground arith)
mark_canceled_from s now o at e = absurd (ground arith)

mark_refund_from :
    (s : Status) (now : ℤ) (o : Order) {o' : Order}
    → o.status ≡ s
    → mark_refund now o ≡ ok o'
    → Marked (is_refunded o.status) o o'
unfolding mark_refund
mark_refund_from cancel now o at e = inr (ground arith, refunds at (ground arith), ground arith)
mark_refund_from refund now o at e = inl (ground arith, ground arith)
mark_refund_from s now o at e = absurd (ground arith)

pub mark_paid-Marked :
    (now : ℤ) (o : Order) {o' : Order} → mark_paid now o ≡ ok o' → Marked (is_paid o.status) o o'
mark_paid-Marked now o e = mark_paid_from o.status now o refl e

pub mark_canceled-Marked :
    (now : ℤ) (o : Order) {o' : Order}
    → mark_canceled now o ≡ ok o'
    → Marked (is_canceled o.status) o o'
mark_canceled-Marked now o e = mark_canceled_from o.status now o refl e

pub mark_refund-Marked :
    (now : ℤ) (o : Order) {o' : Order}
    → mark_refund now o ≡ ok o'
    → Marked (is_refunded o.status) o o'
mark_refund-Marked now o e = mark_refund_from o.status now o refl e

-- A marking that succeeds leaves the status that it is named after.
pub mark_paid-status :
    (now : ℤ) (o : Order) {o' : Order} → mark_paid now o ≡ ok o' → o'.status ≡ paid
unfolding mark_paid
mark_paid-status now o e = ground arith

pub mark_canceled-status :
    (now : ℤ) (o : Order) {o' : Order} → mark_canceled now o ≡ ok o' → o'.status ≡ cancel
unfolding mark_canceled
mark_canceled-status now o e = ground arith

pub mark_refund-status :
    (now : ℤ) (o : Order) {o' : Order} → mark_refund now o ≡ ok o' → o'.status ≡ refund
unfolding mark_refund
mark_refund-status now o e = ground arith
