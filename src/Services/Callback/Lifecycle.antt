-- ===== src/Services/Callback/Lifecycle.antt =====
-- About the payments that `handlePaymentCallback` writes, and the diagram of their states.

use drogon_pay.Common.{String, ◌≡◌, refl, sym, subst, true, arith}
use drogon_pay.Models.Status.{PaymentStatus, is_open_attempt}
use drogon_pay.Models.Lifecycle.{
  ◌⟶*◌, open_attempt_moves, Grows-refl, Grows-update_where, PaymentMoves, PaymentsEvolve,
  PaymentMoves-refl, PaymentsEvolve-trans,
}
use drogon_pay.Utils.Status.{map_trade_state}
use drogon_pay.Services.Callback.Types.{Delivery, Store, Point, Env}
use drogon_pay.Services.Callback.Trade.{is_open_payment}
use drogon_pay.Services.Callback.Deliver.{handle_payment_callback}
use drogon_pay.Services.Callback.Settled.{advanced_row}
use drogon_pay.Services.Callback.Walk.{handle_payment_callback-ends}

-- A trade state takes an open attempt along the diagram.
pub map_trade_state-moves :
    (state : String) (p : PaymentStatus)
    → is_open_attempt p ≡ true
    → p ⟶* (map_trade_state state).payment_status
unfolding map_trade_state
map_trade_state-moves state p o =
    open_attempt_moves (map_trade_state state).payment_status (ground arith) p o

-- `handlePaymentCallback` takes every payment along the diagram of its states, on every branch and
-- whatever the database does: each row of before is there with its numbers and its amount, and an
-- attempt that was collected or refused is as it was, if the other writers do so too.
pub handle_payment_callback-PaymentsEvolve :
    (env : Env) (delivery : Delivery) (s : Store)
    → ((p : Point) (t : Store) → PaymentsEvolve t.tables.payments (env.others p t).tables.payments)
    → PaymentsEvolve s.tables.payments (handle_payment_callback env delivery s).0.tables.payments
handle_payment_callback-PaymentsEvolve env delivery s others =
    handle_payment_callback-ends env delivery (λ db. PaymentsEvolve s.tables.payments db.payments)
      (λ r. PaymentsEvolve s.tables.payments r.0.tables.payments)
      (λ p t v. PaymentsEvolve-trans s.tables.payments _ _ v (others p t)) (λ t answer v. v)
      (λ accepted read before after answer brings u v settles told.
        PaymentsEvolve-trans s.tables.payments before.tables.payments after.tables.payments v (
          subst (λ db. PaymentsEvolve before.tables.payments db.payments) (sym settles.result)
            (Grows-update_where PaymentMoves (is_open_payment settles.payment.payment_no)
              (advanced_row accepted) PaymentMoves-refl
              (λ x open_row. record {
                payment_no = refl;
                order_no = refl;
                amount = refl;
                status =
                    map_trade_state-moves accepted.trade.trade_state x.status
                      (ground (arith, open_row));
                closed_row = λ closed. absurd (ground (arith, open_row, closed));
              })
              before.tables.payments)))
      s (Grows-refl PaymentMoves PaymentMoves-refl s.tables.payments)
