-- ===== src/Pay/Tests.antt =====
-- Runs of the payments on the memory repository, and the theorems on them at concrete inputs.
use ticket_hub.Common.{
  ℕ, suc, ◌≤◌, ℤ, pos, ◌≡◌, refl, inr, true, false, not, Option, none, some, List, [], ◌∷◌, arith,
  if◌then◌else◌, ◌==◌, nat_eq, string_eq, int_eq,
}
use ticket_hub.Common.Dict.{lookup}
use ticket_hub.Errors.{GoError, ok, err, status_error, Status, as_app_error}
use ticket_hub.Errors.Grpc.{is_code, code_of}
use ticket_hub.Lock.{Locker}
use ticket_hub.Pay
use ticket_hub.Pay.{
  PaymentStatus, paid, closed, refunded, Payment, Refund, Gateway, OrderPaymentClient, World,
  PayUsecase, callback, common_pay, refund_amount,
}
use ticket_hub.Pay.Memory
use ticket_hub.Pay.Memory.{Payments, memory_payments, memory_payments-IsPaymentStore}
use ticket_hub.Pay.Callback.{late_refund, late_payment_paid_back}
use ticket_hub.Pay.Start.{common_pay_refused}
use ticket_hub.Pay.Once.{CallbackRequest, callbacks, with_count, callbacks_refund_once}

-- A payment channel that writes down the amounts it gave back.
abbrev channel : Gateway (List ℤ)
channel = record {
  pay = λ p given. (ok "https://pay.example", given);
  check =
      λ n name given. (ok (record { order_number = n; channel = name; paid_flag = true }), given);
  refund = λ r given. (ok tt, r.amount_cent ∷ given);
}

-- An order service where the order 41 is open and every other one was canceled; it writes down the
-- orders that were refunded.
abbrev order_service : OrderPaymentClient (List ℤ)
order_service = record {
  get_order_payment = λ n user_id marked. (
    ok (record {
      status = if n == pos 41 then "NO_PAY" else "CANCEL";
      refund_required = false;
      amount_cent = pos 9900;
    }),
    marked,
  );
  handle_payment_callback = λ n amount_cent paid_flag marked. (
    ok (record { status = "CANCEL"; refund_required = not (n == pos 41); amount_cent = pos 9900 }),
    marked,
  );
  mark_order_refunded = λ n marked. (ok tt, n ∷ marked);
}

abbrev counting : Locker ℕ
counting = record { acquire = λ key ttl n. (ok "token", suc n); release = λ key token n. n }

abbrev usecase : PayUsecase Payments (List ℤ) (List ℤ) ℕ
usecase = record {
  repo = memory_payments;
  gateway = channel;
  orders = some order_service;
  locker = some counting;
  lock_ttl = pos 10;
}

abbrev payment : ℤ → PaymentStatus → Payment
payment n s = record { order_number = n; amount_cent = pos 9900; channel = "alipay"; status = s }

abbrev world : World Payments (List ℤ) (List ℤ) ℕ
world = record {
  payments = (pos 42, payment (pos 42) refunded) ∷ (pos 43, payment (pos 43) paid) ∷ [];
  channels = [];
  orders = [];
  locks = 0;
}

abbrev plain_from_error : GoError → Option Status
plain_from_error (status_error s) = some s
plain_from_error e = none

late_runs : (callback usecase plain_from_error (pos 44) (pos 9900) "alipay" true world).0 ≡ ok tt
unfolding callback lookup Memory.find is_code code_of as_app_error Pay.dispatch Pay.notify_order
    Pay.conclude Pay.refund_late Memory.save
late_runs = refl

unknown_payment :
    Pay.found_or_none plain_from_error (memory_payments.find (pos 44) world.payments) ≡ ok none
unfolding lookup Memory.find is_code code_of as_app_error
unknown_payment = refl

late_payment_paid_back_example :
    let w' = (callback usecase plain_from_error (pos 44) (pos 9900) "alipay" true world).1 in
    ((channel.refund (late_refund (pos 44) (pos 9900)) []).0 ≡ ok tt)
    × (w'.channels ≡ pos 9900 ∷ [])
    × (memory_payments.find (pos 44) w'.payments ≡ ok (payment (pos 44) refunded))
    × ((order_service.mark_order_refunded (pos 44) []).0 ≡ ok tt)
    × (w'.orders ≡ pos 44 ∷ [])
late_payment_paid_back_example =
    late_payment_paid_back usecase plain_from_error order_service refl
      memory_payments-IsPaymentStore (pos 44) (pos 9900) "alipay" world none
      (record { status = "CANCEL"; refund_required = true; amount_cent = pos 9900 }) []
      unknown_payment (λ p e. ground (arith, e)) refl refl late_runs

common_pay_refused_example :
    let (r, w') = common_pay usecase (pos 41) (pos 7) (pos 1) "alipay" world in
    (w'.payments ≡ world.payments) × (w'.channels ≡ world.channels) × ((e : GoError) × (r ≡ err e))
common_pay_refused_example =
    common_pay_refused usecase order_service refl (pos 41) (pos 7) (pos 1) "alipay" world
      (λ current answer. inr (λ e. ground (arith, answer, e)))

abbrev counted_world : World Payments (List ℤ × ℕ) (List ℤ) ℕ
counted_world = record { payments = []; channels = ([], 0); orders = []; locks = 0 }

abbrev three_callbacks : List CallbackRequest
three_callbacks =
    (pos 9900, "alipay", true) ∷ (pos 9900, "alipay", true) ∷ (pos 9900, "wechat", true) ∷ []

callbacks_refund_once_example :
    (callbacks
      (with_count usecase)
      plain_from_error
      (pos 44)
      three_callbacks
      counted_world).channels.1
    ≤ 1
callbacks_refund_once_example =
    callbacks_refund_once usecase plain_from_error memory_payments-IsPaymentStore
      Memory.save_succeeds (pos 44) three_callbacks counted_world
