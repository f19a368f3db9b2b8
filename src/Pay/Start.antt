-- ===== src/Pay/Start.antt =====
-- app/pay-service/internal/application/pay.go: what it takes to start a payment.
use ticket_hub.Common.{
  ℤ, String, ◌≡◌, ◌≢◌, ◌⊎◌, inl, inr, some, arith, Bool-cases, ◌==◌, nat_eq, string_eq, int_eq,
  eqb_ℤ_iff,
}
use ticket_hub.Errors.{GoError, ok, err, Result-cases}
use ticket_hub.Pay.{
  created, Payment, OrderPaymentResult, OrderPaymentClient, World, PayUsecase, check_unpaid,
  common_pay,
}

check_unpaid_ok :
    {R G O L : Type 0} (u : PayUsecase R G O L) (amount_cent : ℤ) (current : OrderPaymentResult)
    {amount : ℤ}
    → check_unpaid u amount_cent current ≡ ok amount
    → (current.status ≡ "NO_PAY") × (amount_cent ≡ current.amount_cent) × (amount ≡ amount_cent)
unfolding check_unpaid
check_unpaid_ok u amount_cent current e = elim (Bool-cases (current.status == "NO_PAY")) [
  | inr other ↦ absurd (ground (arith, other))
  | inl unpaid ↦ elim (Bool-cases (amount_cent == current.amount_cent)) [
    | inr wrong ↦ absurd (ground (arith, unpaid, wrong))
    | inl right ↦
        let same = (eqb_ℤ_iff amount_cent current.amount_cent).0 right in
        (
          (string_eq.beq_iff current.status "NO_PAY").0 unpaid,
          same,
          ground (arith, unpaid, right, same),
        )
  ]
]

abbrev pub created_payment : ℤ → ℤ → String → Payment
created_payment n amount_cent channel = record {
  order_number = n;
  amount_cent = amount_cent;
  channel = channel;
  status = created;
}

module _ {R G O L : Type 0} (u : PayUsecase R G O L) (client : OrderPaymentClient O)
    (linked : u.orders ≡ some client) where
  -- Where the order service refuses, or says that the order has another status or another amount, no
  -- payment is stored and the payment channel is not asked.
  pub common_pay_refused :
      (n user_id amount_cent : ℤ) (channel : String) (w : World R G O L)
      → ((current : OrderPaymentResult)
          → (client.get_order_payment n user_id w.orders).0 ≡ ok current
          → (current.status ≢ "NO_PAY") ⊎ (amount_cent ≢ current.amount_cent))
      → let (r, w') = common_pay u n user_id amount_cent channel w in
        (w'.payments ≡ w.payments) × (w'.channels ≡ w.channels) × ((e : GoError) × (r ≡ err e))
  unfolding common_pay
  common_pay_refused n user_id amount_cent channel w refuses =
      elim (Result-cases (client.get_order_payment n user_id w.orders).0) [
        | inl (x, failed) ↦ (
          ground (arith, linked, failed),
          ground (arith, linked, failed),
          (x, ground (arith, linked, failed)),
        )
        | inr (current, answer) ↦ elim (Result-cases (check_unpaid u amount_cent current)) [
          | inl (x, refused) ↦ (
            ground (arith, linked, answer, refused),
            ground (arith, linked, answer, refused),
            (x, ground (arith, linked, answer, refused)),
          )
          | inr (amount, checked) ↦
              let (unpaid, same, exact) = check_unpaid_ok u amount_cent current checked in
              elim (refuses current answer) [
                | inl other ↦ absurd (other unpaid)
                | inr wrong ↦ absurd (wrong same)
              ]
        ]
      ]
