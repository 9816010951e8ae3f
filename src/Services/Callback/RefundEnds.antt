-- ===== src/Services/Callback/RefundEnds.antt =====
-- About what `handleRefundCallback` leaves in the tables, and when.

use drogon_pay.Common.{◌≡◌, refl, sym, ◌∙◌, subst, ◌⊎◌, inl, inr, arith}
use drogon_pay.Models.Lifecycle.{
  Grows-refl, Grows-update_where, RefundMoves, RefundMoves-refl, RefundsEvolve, RefundsEvolve-trans,
  settles,
}
use drogon_pay.Services.Refund.Settle.{is_unsettled_refund}
use drogon_pay.Services.Callback.Types.{Delivery, Store, Point, Env}
use drogon_pay.Services.Callback.Refund.{AcceptedRefund, settled_refund}
use drogon_pay.Services.Callback.RefundDeliver.{handle_refund_callback}
use drogon_pay.Services.Callback.Settled.{Told}
use drogon_pay.Services.Callback.RefundSettled.{RefundSettles}
use drogon_pay.Services.Callback.Accepts.{BringsRefund}
use drogon_pay.Services.Callback.RefundWalk.{handle_refund_callback-ends}

-- Of a refund notification either nothing comes of the orders, payments, refunds and ledger, or all of
-- one settlement: an authentic, fresh refund of the merchant for a row of the refunds and its order,
-- whose positive amount in fen the notification has, and whose currency if it names one. The row gets
-- the mapped status, a refund that succeeded its ledger entry, unless the Mapper for it cannot be
-- made, and the order becomes REFUNDED only where the settled refunds, this one among them, cover its
-- amount. It is answered SUCCESS, but for a COMMIT that raises and is applied all the same. This holds
-- whatever the database does, if no other writer touches the tables meanwhile.
pub handle_refund_callback-RefundSettles :
    (env : Env) (delivery : Delivery) (s : Store)
    → ((p : Point) (t : Store) → (env.others p t).tables ≡ t.tables)
    → ((handle_refund_callback env delivery s).0.tables ≡ s.tables)
      ⊎ (((accepted : AcceptedRefund) × BringsRefund env delivery accepted
            × RefundSettles env delivery accepted s.tables s.tables
                (handle_refund_callback env delivery s).0.tables)
          × Told env (handle_refund_callback env delivery s).1)
handle_refund_callback-RefundSettles env delivery s quiet =
    handle_refund_callback-ends env delivery (λ db. db ≡ s.tables)
      (λ r.
        (r.0.tables ≡ s.tables)
        ⊎ (((accepted : AcceptedRefund) × BringsRefund env delivery accepted
              × RefundSettles env delivery accepted s.tables s.tables r.0.tables)
            × Told env r.1))
      (λ p t v. quiet p t ∙ v) (λ t answer v. inl v)
      (λ accepted read before after answer brings u v settled told. inr (
        (
          accepted,
          brings,
          subst (λ db. RefundSettles env delivery accepted db s.tables after.tables) u
              (subst (λ db. RefundSettles env delivery accepted read.tables db after.tables) v
                settled),
        ),
        told,
      ))
      s refl

-- `handleRefundCallback` leaves every refund that was paid or refused as it was, on every branch and
-- whatever the database does, and keeps the numbers and the amounts of all, if the other writers do so
-- too.
pub handle_refund_callback-RefundsEvolve :
    (env : Env) (delivery : Delivery) (s : Store)
    → ((p : Point) (t : Store) → RefundsEvolve t.tables.refunds (env.others p t).tables.refunds)
    → RefundsEvolve s.tables.refunds (handle_refund_callback env delivery s).0.tables.refunds
handle_refund_callback-RefundsEvolve env delivery s others =
    handle_refund_callback-ends env delivery (λ db. RefundsEvolve s.tables.refunds db.refunds)
      (λ r. RefundsEvolve s.tables.refunds r.0.tables.refunds)
      (λ p t v. RefundsEvolve-trans s.tables.refunds _ _ v (others p t)) (λ t answer v. v)
      (λ accepted read before after answer brings u v settled told.
        RefundsEvolve-trans s.tables.refunds before.tables.refunds after.tables.refunds v (
          subst (λ db. RefundsEvolve before.tables.refunds db.refunds) (sym settled.result)
            (Grows-update_where RefundMoves (is_unsettled_refund accepted.trade.out_refund_no)
              (settled_refund settled.refund_status accepted.trade.refund_id) RefundMoves-refl
              (λ x open_row. record {
                refund_no = refl;
                order_no = refl;
                payment_no = refl;
                amount = refl;
                status = settles (ground (arith, open_row));
                settled = λ closed. absurd (ground (arith, open_row, closed));
              })
              before.tables.refunds)))
      s (Grows-refl RefundMoves RefundMoves-refl s.tables.refunds)
