-- ===== src/Services/Callback/Accepts.antt =====
-- About what an accepted notification has passed.

use drogon_pay.Common.{
  ◌≡◌, refl, subst, ◌⊎◌, inl, inr, true, none, some, arith, Option-cases, Bytes,
}
use drogon_pay.Services.Callback.Types.{Delivery, WechatClient, Trade, RefundTrade, Answer, Env}
use drogon_pay.Services.Callback.Verify.{
  transaction_event, refund_event, Opened, open_envelope, check_merchant, check_nonce,
}
use drogon_pay.Services.Callback.Trade.{Accepted, check_members, notice_key}
use drogon_pay.Services.Callback.Deliver.{check_trade, read_transaction, accept}
use drogon_pay.Services.Callback.Authentic.{Authentic, open_envelope-Authentic}
use drogon_pay.Services.Callback.Refund.{AcceptedRefund, check_refund_members, refund_key}
use drogon_pay.Services.Callback.RefundDeliver.{
  check_refund_trade, read_refund_notice, accept_refund,
}

-- A transaction that an authentic delivery brings.
pub record Brings (env : Env) (delivery : Delivery) (accepted : Accepted) : Type 0 where
  pub id : Bytes
  pub client : WechatClient
  pub authentic : Authentic env transaction_event client delivery id accepted.plaintext
  pub read : env.read_trade accepted.plaintext ≡ some accepted.trade
  pub merchant : check_merchant client accepted.trade.appid accepted.trade.mchid ≡ none
  pub members : check_members accepted.trade ≡ none
  pub its_key : accepted.key ≡ notice_key id accepted.trade

check_trade-Brings :
    (env : Env) (delivery : Delivery) (client : WechatClient) (opened : Opened) (trade : Trade)
    (accepted : Accepted)
    → env.wechat_client ≡ some client
    → check_nonce env.redis delivery.nonce ≡ true
    → open_envelope env transaction_event client delivery ≡ inr opened
    → env.read_trade opened.plaintext ≡ some trade
    → check_trade env delivery client opened trade ≡ inr accepted
    → Brings env delivery accepted
unfolding check_trade
check_trade-Brings env delivery client opened trade accepted its_client first opens read e =
    elim (Option-cases (check_merchant client trade.appid trade.mchid)) [
      | inr (answer, wrong) ↦ absurd (ground (arith, e))
      | inl merchant ↦ elim (Option-cases (check_members trade)) [
        | inr (answer, wrong) ↦ absurd (ground (arith, e))
        | inl members ↦ subst (Brings env delivery) (ground (arith, e)) (record {
          id = opened.id;
          client = client;
          authentic =
              open_envelope-Authentic env transaction_event client delivery opened its_client first
                opens;
          read = read;
          merchant = merchant;
          members = members;
          its_key = refl;
        })
      ]
    ]

pub accept-Brings :
    (env : Env) (delivery : Delivery) (accepted : Accepted)
    → accept env delivery ≡ inr accepted
    → check_nonce env.redis delivery.nonce ≡ true
    → Brings env delivery accepted
unfolding accept read_transaction
accept-Brings env delivery accepted e first = elim (Option-cases env.wechat_client) [
  | inl absent ↦ absurd (ground (arith, e))
  | inr (client, its_client) ↦
      on_opened client (open_envelope env transaction_event client delivery) its_client refl
        (ground (arith, e))
]
  where
    on_opened :
        (client : WechatClient) (opened : Answer ⊎ Opened)
        → env.wechat_client ≡ some client
        → open_envelope env transaction_event client delivery ≡ opened
        → read_transaction env delivery client opened ≡ inr accepted
        → Brings env delivery accepted
    on_opened client (inl answer) its_client opens q = absurd (ground (arith, q))
    on_opened client (inr opened) its_client opens q =
        elim (Option-cases (env.read_trade opened.plaintext)) [
          | inl unread ↦ absurd (ground (arith, q))
          | inr (trade, read) ↦
              check_trade-Brings env delivery client opened trade accepted its_client first opens
                read (ground (arith, q, read))
        ]

-- A refund that an authentic delivery brings.
pub record BringsRefund (env : Env) (delivery : Delivery) (accepted : AcceptedRefund) : Type 0 where
  pub id : Bytes
  pub client : WechatClient
  pub authentic : Authentic env refund_event client delivery id accepted.plaintext
  pub read : env.read_refund accepted.plaintext ≡ some accepted.trade
  pub merchant : check_merchant client accepted.trade.appid accepted.trade.mchid ≡ none
  pub members : check_refund_members accepted.trade ≡ none
  pub its_key : accepted.key ≡ refund_key id accepted.trade

module _ (env : Env) (delivery : Delivery) (accepted : AcceptedRefund) where
  check_refund_trade-Brings :
      (client : WechatClient) (opened : Opened) (trade : RefundTrade)
      → env.wechat_client ≡ some client
      → check_nonce env.redis delivery.nonce ≡ true
      → open_envelope env refund_event client delivery ≡ inr opened
      → env.read_refund opened.plaintext ≡ some trade
      → check_refund_trade env delivery client opened trade ≡ inr accepted
      → BringsRefund env delivery accepted
  unfolding check_refund_trade
  check_refund_trade-Brings client opened trade its_client first opens read e =
      elim (Option-cases (check_merchant client trade.appid trade.mchid)) [
        | inr (answer, wrong) ↦ absurd (ground (arith, e))
        | inl merchant ↦ elim (Option-cases (check_refund_members trade)) [
          | inr (answer, wrong) ↦ absurd (ground (arith, e))
          | inl members ↦ subst (BringsRefund env delivery) (ground (arith, e)) (record {
            id = opened.id;
            client = client;
            authentic =
                open_envelope-Authentic env refund_event client delivery opened its_client first
                  opens;
            read = read;
            merchant = merchant;
            members = members;
            its_key = refl;
          })
        ]
      ]

  read_refund_notice-Brings :
      (client : WechatClient) (opened : Answer ⊎ Opened)
      → env.wechat_client ≡ some client
      → check_nonce env.redis delivery.nonce ≡ true
      → open_envelope env refund_event client delivery ≡ opened
      → read_refund_notice env delivery client opened ≡ inr accepted
      → BringsRefund env delivery accepted
  unfolding read_refund_notice
  read_refund_notice-Brings client (inl answer) its_client first opens e =
      absurd (ground (arith, e))
  read_refund_notice-Brings client (inr opened) its_client first opens e =
      elim (Option-cases (env.read_refund opened.plaintext)) [
        | inl unread ↦ absurd (ground (arith, e))
        | inr (trade, read) ↦
            check_refund_trade-Brings client opened trade its_client first opens read
              (ground (arith, e, read))
      ]

  pub accept_refund-Brings :
      accept_refund env delivery ≡ inr accepted
      → check_nonce env.redis delivery.nonce ≡ true
      → BringsRefund env delivery accepted
  unfolding accept_refund
  accept_refund-Brings e first = elim (Option-cases env.wechat_client) [
    | inl absent ↦ absurd (ground (arith, e))
    | inr (client, its_client) ↦
        read_refund_notice-Brings client (open_envelope env refund_event client delivery) its_client
          first refl (ground (arith, e))
  ]
