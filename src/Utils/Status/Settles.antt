-- ===== src/Utils/Status/Settles.antt =====
-- Which channel states settle money, through `mapTradeState` and `resolveRefundedOrderStatus`.
use drogon_pay.Common.{String, ◌≡◌, ◌≢◌, ◌↔◌, ◌⊎◌, arith, eq_iff}
use drogon_pay.Common.Int.{ℤ, ◌≤ℤ◌, pos}
use drogon_pay.Models.Status.{paid, refunded, success}
use drogon_pay.Utils.Status.{map_trade_state, resolve_refunded_order_status}

-- Money was collected in the states SUCCESS and REFUND.
abbrev pub IsCollected : String → Type 0
IsCollected trade_state = (trade_state ≡ "SUCCESS") ⊎ (trade_state ≡ "REFUND")

states_differ : ◌≢◌ {A = String} "REFUND" "USERPAYING" × ◌≢◌ {A = String} "REFUND" "NOTPAY"
states_differ =
    (ground (arith, eq_iff "REFUND" "USERPAYING"), ground (arith, eq_iff "REFUND" "NOTPAY"))

-- The payment counts as collected on exactly the trade states SUCCESS and REFUND.
pub map_trade_state-success :
    (t : String) → ((map_trade_state t).payment_status ≡ success) ↔ IsCollected t
unfolding map_trade_state
map_trade_state-success t = ground (
  arith,
  states_differ,
  eq_iff t "SUCCESS",
  eq_iff t "USERPAYING",
  eq_iff t "NOTPAY",
  eq_iff t "REFUND",
  eq_iff t "CLOSED",
  eq_iff t "REVOKED",
)

-- The order is reported REFUNDED only on a trade that the channel calls REFUND and whose settled
-- refunds cover a positive total; a REFUND with less leaves the order PAID; no other trade state is
-- touched by the refunds, and a trade whose order reads PAID has its payment reported SUCCESS.
pub resolve_refunded_order_status-map_trade_state :
    (t : String) (settled total : ℤ)
    → ((resolve_refunded_order_status (map_trade_state t).order_status settled total ≡ refunded)
        ↔ ((t ≡ "REFUND") × (pos 1 ≤ℤ total) × (total ≤ℤ settled)))
      × ((t ≡ "REFUND")
          → (¬ ((pos 1 ≤ℤ total) × (total ≤ℤ settled)))
          → resolve_refunded_order_status (map_trade_state t).order_status settled total ≡ paid)
      × ((t ≢ "REFUND")
          → resolve_refunded_order_status (map_trade_state t).order_status settled total
            ≡ (map_trade_state t).order_status)
      × ((resolve_refunded_order_status (map_trade_state t).order_status settled total ≡ paid)
          → (map_trade_state t).payment_status ≡ success)
unfolding map_trade_state resolve_refunded_order_status
resolve_refunded_order_status-map_trade_state t settled total = ground (
  arith,
  states_differ,
  eq_iff t "SUCCESS",
  eq_iff t "USERPAYING",
  eq_iff t "NOTPAY",
  eq_iff t "REFUND",
  eq_iff t "CLOSED",
  eq_iff t "REVOKED",
  eq_iff "REFUND" "SUCCESS",
)
