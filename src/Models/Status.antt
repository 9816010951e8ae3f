-- ===== src/Models/Status.antt =====
-- The status texts of pay_order, pay_payment and pay_refund, and the tests that the services make.
use drogon_pay.Common.{Bool, true, false}

-- CREATED, PAYING, PAID, REFUNDED, CLOSED, FAILED
pub data OrderStatus : Type 0 where
  created paying paid refunded closed failed : OrderStatus

-- INIT, PROCESSING, SUCCESS, FAIL, REFUNDED
pub data PaymentStatus : Type 0 where
  init processing success fail refunded_payment : PaymentStatus

-- REFUND_INIT, REFUNDING, REFUND_SUCCESS, REFUND_FAIL
pub data RefundStatus : Type 0 where
  refund_init refunding refund_success refund_fail : RefundStatus

abbrev pub is_paid : OrderStatus → Bool
is_paid paid = true
is_paid _ = false

abbrev pub is_refunded : OrderStatus → Bool
is_refunded refunded = true
is_refunded _ = false

abbrev pub is_success : PaymentStatus → Bool
is_success success = true
is_success _ = false

-- status IN ('SUCCESS', 'REFUNDED')
abbrev pub holds_money : PaymentStatus → Bool
holds_money success = true
holds_money refunded_payment = true
holds_money _ = false

-- status IN ('INIT', 'PROCESSING', 'SUCCESS', 'REFUNDED')
abbrev pub may_settle : PaymentStatus → Bool
may_settle fail = false
may_settle _ = true

-- status IN ('INIT', 'PROCESSING')
abbrev pub is_open_attempt : PaymentStatus → Bool
is_open_attempt init = true
is_open_attempt processing = true
is_open_attempt _ = false

-- status IN ('REFUND_INIT', 'REFUNDING')
abbrev pub is_unsettled : RefundStatus → Bool
is_unsettled refund_init = true
is_unsettled refunding = true
is_unsettled _ = false

abbrev pub is_refund_success : RefundStatus → Bool
is_refund_success refund_success = true
is_refund_success _ = false

abbrev pub is_refund_fail : RefundStatus → Bool
is_refund_fail refund_fail = true
is_refund_fail _ = false

-- status IN ('REFUND_INIT', 'REFUNDING', 'REFUND_SUCCESS')
abbrev pub counts_as_refunded : RefundStatus → Bool
counts_as_refunded refund_fail = false
counts_as_refunded _ = true
