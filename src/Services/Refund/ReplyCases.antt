-- ===== src/Services/Refund/ReplyCases.antt =====
-- About `on_wechat_reply`, the callback of the channel in `invokeRefundChannel`, on each of its branches.
use drogon_pay.Common.{
  ◌≡◌, refl, ◌⊎◌, inl, inr, true, false, Option, none, some, arith, Bool-cases, Option-cases,
  is_empty,
}
use drogon_pay.Models.Status.{RefundStatus, is_refund_fail, refunding, refund_fail}
use drogon_pay.Models.Tables.{Db}
use drogon_pay.Utils.Status.{map_refund_status}
use drogon_pay.Services.Refund.Types.{Response, ChannelReply, Env}
use drogon_pay.Services.Refund.Settle.{update_refund_with_error, update_refund_with_success}
use drogon_pay.Services.Refund.Invoke.{
  refund_certainly_did_not_happen, Refund, close_or_leave, on_unusable_status, on_wechat_status,
  on_wechat_reply,
}

-- The answers behind which the row is closed.
abbrev pub Closes : ChannelReply → Type 0
Closes answer =
    ((is_empty answer.error ≡ false) × (refund_certainly_did_not_happen answer.error ≡ true))
    ⊎ ((is_empty answer.error ≡ true)
        × ((map_refund_status answer.status ≡ some refund_fail)
            ⊎ ((map_refund_status answer.status ≡ none) × (is_empty answer.code ≡ false))))

abbrev pub status_of : Response → Option RefundStatus
status_of response = elim response.body [ none ↦ none | some d ↦ some d.status ]

pub on_wechat_reply-cases :
    (env : Env) (r : Refund) (answer : ChannelReply) (db : Db)
    → (Closes answer
        × ((on_wechat_reply env r answer db).0 ≡ update_refund_with_error env r.refund_no db)
        × ((on_wechat_reply env r answer db).1.code ≡ 1502)
        × (status_of (on_wechat_reply env r answer db).1 ≡ some refund_fail))
      ⊎ (((¬ Closes answer)
            × ((on_wechat_reply env r answer db).0 ≡ db)
            × ((on_wechat_reply env r answer db).1.code ≡ 1502)
            × (status_of (on_wechat_reply env r answer db).1 ≡ some refunding))
          ⊎ ((s : RefundStatus) × (is_empty answer.error ≡ true)
              × (map_refund_status answer.status ≡ some s)
              × (is_refund_fail s ≡ false)
              × (on_wechat_reply env r answer db
                  ≡ update_refund_with_success env r.refund_no s answer.refund_id r.order_no
                      r.payment_no r.amount r.total_fen db)))
unfolding on_wechat_reply on_wechat_status on_unusable_status close_or_leave
on_wechat_reply-cases env r answer db = elim (Bool-cases (is_empty answer.error)) [
  | inr refused ↦ elim (Bool-cases (refund_certainly_did_not_happen answer.error)) [
    | inl certain ↦ inl (
      inl (refused, certain),
      ground (arith, refused),
      ground (arith, refused),
      ground (arith, refused),
    )
    | inr open_end ↦ inr (
        inl (
          λ h. ground (arith, refused, open_end, h),
          ground (arith, refused),
          ground (arith, refused),
          ground (arith, refused),
        ))
  ]
  | inl clean ↦ elim (Option-cases (map_refund_status answer.status)) [
    | inl unknown ↦ elim (Bool-cases (is_empty answer.code)) [
      | inl bare ↦ inr (
          inl (
            λ h. ground (arith, clean, unknown, bare, h),
            ground (arith, clean, unknown, bare),
            ground (arith, clean, unknown, bare),
            ground (arith, clean, unknown, bare),
          ))
      | inr coded ↦ inl (
        inr (clean, inr (unknown, coded)),
        ground (arith, clean, unknown, coded),
        ground (arith, clean, unknown, coded),
        ground (arith, clean, unknown, coded),
      )
    ]
    | inr (s, known) ↦ elim (Bool-cases (is_refund_fail s)) [
      | inl lost ↦ inl (
        inr (clean, inl (ground (arith, known, lost))),
        ground (arith, clean, known, lost),
        ground (arith, clean, known, lost),
        ground (arith, clean, known, lost),
      )
      | inr alive ↦ inr (
          inr (
            s,
            clean,
            known,
            alive,
            rw (clean, known, on_wechat_reply, on_wechat_status, alive) refl,
          ))
    ]
  ]
]
