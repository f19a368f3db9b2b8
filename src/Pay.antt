-- ===== src/Pay.antt =====
-- app/pay-service/internal: payments, and what they ask of the order service. The metric that a
-- callback counts is left out.
pub mod Memory
pub mod Callback
pub mod Start
pub mod Once
mod Tests
use ticket_hub.Common.{
  ℤ, pos, String, ◌≡◌, Bool, true, false, not, Option, none, some, List, [], ◌==◌, int_eq,
  string_eq, if◌then◌else◌, leb_ℤ, ◌&&◌, ◌≤ℤ◌, ◌⊎◌,
}
use ticket_hub.Common.Fmt.{◌<>◌, show_ℤ}
use ticket_hub.Errors.{Code, order_state_conflict, GoError, new_error, Result, ok, err, Status}
use ticket_hub.Errors.Grpc.{is_code}
use ticket_hub.Action.{Action, pure, fail, gets, ◌>>=◌, ◌>>◌}
use ticket_hub.Lock.{Locker}

-- The constants of the string type `PaymentStatus`, and any other text.
pub data PaymentStatus : Type 0 where
  created paid closed refunded : PaymentStatus
  other_payment : String → PaymentStatus

pub record Payment : Type 0 where
  pub order_number : ℤ
  pub amount_cent : ℤ
  pub channel : String
  pub status : PaymentStatus

-- `success` is never read.
pub record Refund : Type 0 where
  pub request_id : String
  pub order_number : ℤ
  pub amount_cent : ℤ
  pub reason : String

pub record Trade : Type 0 where
  pub order_number : ℤ
  pub channel : String
  pub paid_flag : Bool

-- `Gateway`, over the state `G` of the payment channel.
pub record Gateway (G : Type 0) : Type 0 where
  pub pay : Payment → Action G String
  pub check : ℤ → String → Action G Trade
  pub refund : Refund → Action G (Unit {0})

-- `PaymentRepository`
pub record PaymentStore (R : Type 0) : Type 0 where
  pub save : Payment → Action R (Unit {0})
  pub find : ℤ → R → Result Payment

pub record OrderPaymentResult : Type 0 where
  pub status : String
  pub refund_required : Bool
  pub amount_cent : ℤ

-- `OrderPaymentClient`, over the state `O` of the order service.
pub record OrderPaymentClient (O : Type 0) : Type 0 where
  pub get_order_payment : ℤ → ℤ → Action O OrderPaymentResult
  pub handle_payment_callback : ℤ → ℤ → Bool → Action O OrderPaymentResult
  pub mark_order_refunded : ℤ → Action O (Unit {0})

pub record World (R G O L : Type 0) : Type 0 where
  pub payments : R
  pub channels : G
  pub orders : O
  pub locks : L

-- `PayUsecase`; `orders` and `locker` may be nil.
pub record PayUsecase (R G O L : Type 0) : Type 0 where
  pub repo : PaymentStore R
  pub gateway : Gateway G
  pub orders : Option (OrderPaymentClient O)
  pub locker : Option (Locker L)
  pub lock_ttl : ℤ

abbrev pub is_refunded : PaymentStatus → Bool
is_refunded refunded = true
is_refunded s = false

abbrev pub is_paid : PaymentStatus → Bool
is_paid paid = true
is_paid s = false

-- `refundRequestID`
abbrev pub refund_request_id : ℤ → String
refund_request_id n = "late-payment-" <> show_ℤ n

-- The payment that `Find` gives along with an error.
abbrev pub zero_payment : Payment
zero_payment = record {
  order_number = pos 0;
  amount_cent = pos 0;
  channel = "";
  status = other_payment "";
}

-- A read of the repository where the error NOT_FOUND is no failure.
abbrev pub found_or_none : (GoError → Option Status) → Result Payment → Result (Option Payment)
found_or_none from_error (ok p) = ok (some p)
found_or_none from_error (err e) = if is_code from_error e Code.not_found then ok none else err e

-- The payment that `Refund` saves, over the one that was found or the zero one.
abbrev pub refunded_payment : ℤ → ℤ → Option Payment → Payment
refunded_payment n amount_cent none = record zero_payment {
  order_number = n;
  amount_cent = amount_cent;
  status = refunded;
}
refunded_payment n amount_cent (some p) = record p {
  order_number = n;
  amount_cent = amount_cent;
  status = refunded;
}

abbrev pub refund_amount : ℤ → OrderPaymentResult → ℤ
refund_amount amount_cent result =
    if leb_ℤ result.amount_cent (pos 0) then amount_cent else result.amount_cent

module _ {R G O L : Type 0} where
  abbrev pub on_payments : {A : Type 0} → Action R A → Action (World R G O L) A
  on_payments m w = let (r, s) = m w.payments in (r, record w { payments = s })

  abbrev pub on_channels : {A : Type 0} → Action G A → Action (World R G O L) A
  on_channels m w = let (r, s) = m w.channels in (r, record w { channels = s })

  abbrev pub on_orders : {A : Type 0} → Action O A → Action (World R G O L) A
  on_orders m w = let (r, s) = m w.orders in (r, record w { orders = s })

  -- `withPaymentLock` once the lock service has answered.
  unfoldable pub run_locked :
      {A : Type 0}
      → Locker L
      → String
      → Action (World R G O L) A
      → World R G O L
      → Result String × L
      → Result A × World R G O L
  run_locked service key body w (err e, held) = (err e, record w { locks = held })
  run_locked service key body w (ok token, held) =
      let (r, w') = body (record w { locks = held }) in
      (r, record w' { locks = service.release key token w'.locks })

module _ {R G O L : Type 0} (u : PayUsecase R G O L) where
  -- The end of `commonPay`, for an amount that was checked.
  unfoldable pub create_payment : ℤ → ℤ → String → Action (World R G O L) String
  create_payment n amount_cent channel = do
    let payment : Payment = record {
      order_number = n;
      amount_cent = amount_cent;
      channel = channel;
      status = created;
    }
    on_payments (u.repo.save payment)
    on_channels (u.gateway.pay payment)

  -- The checks of `commonPay` on what the order service says.
  unfoldable pub check_unpaid : ℤ → OrderPaymentResult → Result ℤ
  check_unpaid amount_cent current =
      if not (current.status == "NO_PAY")
      then err (new_error order_state_conflict "only unpaid order can start payment")
      else if not (amount_cent == current.amount_cent)
      then err (new_error Code.invalid_argument "payment amount does not match order amount")
      else ok current.amount_cent

  -- `commonPay`
  unfoldable pub common_pay : ℤ → ℤ → ℤ → String → Action (World R G O L) String
  common_pay n user_id amount_cent channel = elim u.orders [
    | none ↦ create_payment n amount_cent channel
    | some client ↦ do
      current ← on_orders (client.get_order_payment n user_id)
      amount ← gets (λ w. check_unpaid amount_cent current)
      create_payment n amount channel
  ]

  -- `TradeCheck`
  unfoldable pub trade_check : ℤ → ℤ → String → Action (World R G O L) Trade
  trade_check n user_id channel = elim u.orders [
    | none ↦ on_channels (u.gateway.check n channel)
    | some client ↦ do
      current ← on_orders (client.get_order_payment n user_id)
      on_channels (u.gateway.check n channel)
  ]

  -- `Refund`
  unfoldable pub refund_payment :
      (GoError → Option Status) → ℤ → ℤ → String → Action (World R G O L) (Unit {0})
  refund_payment from_error n amount_cent reason = do
    on_channels (
        u.gateway.refund (record {
          request_id = refund_request_id n;
          order_number = n;
          amount_cent = amount_cent;
          reason = reason;
        }))
    current ← gets (λ w. found_or_none from_error (u.repo.find n w.payments))
    on_payments (u.repo.save (refunded_payment n amount_cent current))

  -- The end of `callback` where no refund is asked for.
  unfoldable pub record_payment : ℤ → ℤ → String → Bool → Action (World R G O L) (Unit {0})
  record_payment n amount_cent channel paid_flag = on_payments (
      u.repo.save (record {
        order_number = n;
        amount_cent = amount_cent;
        channel = channel;
        status = if paid_flag then paid else closed;
      }))

  -- The end of `callback` where the order service asks for a refund.
  unfoldable pub refund_late :
      OrderPaymentClient O → ℤ → ℤ → String → Action (World R G O L) (Unit {0})
  refund_late client n amount channel = do
    on_channels (
        u.gateway.refund (record {
          request_id = refund_request_id n;
          order_number = n;
          amount_cent = amount;
          reason = "payment received after order cancellation";
        }))
    on_payments (
        u.repo.save
          (record { order_number = n; amount_cent = amount; channel = channel; status = refunded }))
    on_orders (client.mark_order_refunded n)

  -- `callback` from the result of `HandlePaymentCallback` on.
  unfoldable pub conclude :
      OrderPaymentClient O
      → ℤ
      → ℤ
      → String
      → Bool
      → OrderPaymentResult
      → Action (World R G O L) (Unit {0})
  conclude client n amount_cent channel paid_flag result =
      if result.refund_required
      then refund_late client n (refund_amount amount_cent result) channel
      else record_payment n amount_cent channel paid_flag

  -- `callback` from the call of the order service on. Without one, no refund is asked for.
  unfoldable pub notify_order : ℤ → ℤ → String → Bool → Action (World R G O L) (Unit {0})
  notify_order n amount_cent channel paid_flag = elim u.orders [
    | none ↦ record_payment n amount_cent channel paid_flag
    | some client ↦ do
      result ← on_orders (client.handle_payment_callback n amount_cent paid_flag)
      conclude client n amount_cent channel paid_flag result
  ]

  -- A callback for a payment that was refunded before.
  unfoldable pub replay_refund : ℤ → Bool → Action (World R G O L) (Unit {0})
  replay_refund n paid_flag =
      if paid_flag
      then elim u.orders [ none ↦ pure tt | some client ↦ on_orders (client.mark_order_refunded n) ]
      else pure tt

  -- The part of `callback` that looks at the payment that is stored, if there is one.
  unfoldable pub dispatch :
      ℤ → ℤ → String → Bool → Option Payment → Action (World R G O L) (Unit {0})
  dispatch n amount_cent channel paid_flag none = notify_order n amount_cent channel paid_flag
  dispatch n amount_cent channel paid_flag (some current) =
      if is_refunded current.status
      then replay_refund n paid_flag
      else if is_paid current.status && not paid_flag
      then pure tt
      else notify_order n amount_cent channel paid_flag

  -- `callback`
  unfoldable pub callback :
      (GoError → Option Status) → ℤ → ℤ → String → Bool → Action (World R G O L) (Unit {0})
  callback from_error n amount_cent channel paid_flag = do
    found ← gets (λ w. found_or_none from_error (u.repo.find n w.payments))
    dispatch n amount_cent channel paid_flag found

  -- `withPaymentLock`
  unfoldable pub with_payment_lock :
      {A : Type 0} → ℤ → Action (World R G O L) A → Action (World R G O L) A
  with_payment_lock n body w = elim u.locker [
    | none ↦ body w
    | some service ↦
        let key = "tickethub:payment-lock:" <> show_ℤ n in
        run_locked service key body w (service.acquire key u.lock_ttl w.locks)
  ]

  -- `CommonPay`
  unfoldable pub call_common_pay : ℤ → ℤ → ℤ → String → Action (World R G O L) String
  call_common_pay n user_id amount_cent channel =
      with_payment_lock n (common_pay n user_id amount_cent channel)

  -- `Callback`
  unfoldable pub call_callback :
      (GoError → Option Status) → ℤ → ℤ → String → Bool → Action (World R G O L) (Unit {0})
  call_callback from_error n amount_cent channel paid_flag =
      with_payment_lock n (callback from_error n amount_cent channel paid_flag)

-- What a repository keeps: after a save that succeeded, the payment is found under its number, and
-- the others are as they were.
pub record IsPaymentStore {R : Type 0} (repo : PaymentStore R) : Type 0 where
  pub save_find :
      (p : Payment) (s : R) (n : ℤ)
      → (repo.save p s).0 ≡ ok tt
      → repo.find n (repo.save p s).1 ≡ (if p.order_number == n then ok p else repo.find n s)
