-- ===== src/Services/Callback/AllOrNothing.antt =====
-- About what `handlePaymentCallback` leaves in the tables, and when.
use drogon_pay.Common.{◌≡◌, refl, ◌∙◌, subst, ◌⊎◌, inl, inr}
use drogon_pay.Services.Callback.Types.{Delivery, Store, Point, Env}
use drogon_pay.Services.Callback.Trade.{Accepted}
use drogon_pay.Services.Callback.Deliver.{handle_payment_callback}
use drogon_pay.Services.Callback.Settled.{Told, Settles}
use drogon_pay.Services.Callback.Accepts.{Brings}
use drogon_pay.Services.Callback.Walk.{handle_payment_callback-ends}

-- Of a payment notification either nothing comes of the orders, payments, refunds and ledger, or all of
-- one settlement: an authentic, fresh transaction of the merchant for an open attempt and its order, both
-- rows of the tables, whose amount in fen the transaction has, and whose currency and transaction number
-- where they are given. Payment, order and ledger entry are written together, but that the entry is
-- missing where the Mapper for it cannot be made. It is answered SUCCESS, but for a COMMIT that raises and is applied all the same. This
-- holds whatever the database does, if no other writer touches the tables meanwhile.
pub handle_payment_callback-Settles :
    (env : Env) (delivery : Delivery) (s : Store)
    → ((p : Point) (t : Store) → (env.others p t).tables ≡ t.tables)
    → ((handle_payment_callback env delivery s).0.tables ≡ s.tables)
      ⊎ (((accepted : Accepted) × Brings env delivery accepted
            × Settles env delivery accepted s.tables s.tables
                (handle_payment_callback env delivery s).0.tables)
          × Told env (handle_payment_callback env delivery s).1)
handle_payment_callback-Settles env delivery s quiet =
    handle_payment_callback-ends env delivery (λ db. db ≡ s.tables)
      (λ r.
        (r.0.tables ≡ s.tables)
        ⊎ (((accepted : Accepted) × Brings env delivery accepted
              × Settles env delivery accepted s.tables s.tables r.0.tables)
            × Told env r.1))
      (λ p t v. quiet p t ∙ v) (λ t answer v. inl v)
      (λ accepted read before after answer brings u v settles told. inr (
        (
          accepted,
          brings,
          subst (λ db. Settles env delivery accepted db s.tables after.tables) u
              (subst (λ db. Settles env delivery accepted read.tables db after.tables) v settles),
        ),
        told,
      ))
      s refl
