-- ===== src/Services/Refund/Outcomes.antt =====
-- About the callback of `wechatChannel->refund` in `invokeRefundChannel`.
use drogon_pay.Common.{
  ◌≡◌, refl, sym, subst, ◌≢◌, ◌⊎◌, inl, inr, true, false, some, [], ◌∷◌, arith, Bytes, is_empty,
}
use drogon_pay.Models.Status.{RefundStatus, refunding, refund_fail}
use drogon_pay.Models.Tables.{RefundRow, Db, update_where, Fault-cases, succeeds}
use drogon_pay.Services.Refund.Types.{
  Response, ChannelReply, Env, update_refund, after_refund_update, after_settled_sum,
}
use drogon_pay.Services.Refund.Settle.{
  is_unsettled_refund, update_refund_with_error, refund_created, write_refunded_order,
  settle_on_sum, settle_order, update_refund_with_success,
}
use drogon_pay.Services.Refund.Refusals.{
  IsRefusal, refund_certainly_did_not_happen-IsRefusal, IsFailed, IsKnown, Means,
  map_refund_status-fail, map_refund_status-none, map_refund_status-Means,
  IsFailed-map_refund_status, unknown-map_refund_status,
}
use drogon_pay.Services.Refund.Invoke.{Refund, on_wechat_reply}
use drogon_pay.Services.Refund.ReplyCases.{Closes, status_of, on_wechat_reply-cases}

-- The money did not move: an error that says so, a failed state, or a refusal with a code and a state that
-- is not known.
abbrev pub DidNotHappen : ChannelReply → Type 0
DidNotHappen answer =
    ((answer.error ≢ []) × IsRefusal answer.error)
    ⊎ ((answer.error ≡ [])
        × (IsFailed answer.status ⊎ ((¬ IsKnown answer.status) × (answer.code ≢ []))))

-- The rows of a refund that is in progress, as one UPDATE writes them.
abbrev pub written : Bytes → (RefundRow → RefundRow) → Db → Db
written refund_no f db = record db {
  refunds = update_where (is_unsettled_refund refund_no) f db.refunds;
}

-- The open row of the refund reads REFUND_FAIL, or the UPDATE failed.
abbrev pub IsClosed : Env → Bytes → Db → Db → Type 0
IsClosed env refund_no before after =
    ((env.faults update_refund ≡ succeeds)
      × (after
          ≡ written refund_no (λ row. record row { status = refund_fail; updated_at = env.now })
              before))
    ⊎ ((env.faults update_refund ≢ succeeds) × (after ≡ before))

-- The open row of the refund has the status and WeChat's number, and the refunds are those tables or what
-- the other writers made of them, and the caller reads the status or 1500; or the UPDATE failed, and the
-- caller reads 1500.
abbrev pub IsBooked : Env → Refund → RefundStatus → Bytes → Db → Db × Response → Type 0
IsBooked env r status refund_id before result =
    ((env.faults update_refund ≡ succeeds)
      × ((after : Db) × (after
            ≡ env.others after_refund_update (
                written r.refund_no
                  (λ row. record row {
                    status = status;
                    channel_refund_no = some refund_id;
                    updated_at = env.now;
                  })
                  before))
          × ((result.0.refunds ≡ after.refunds)
              ⊎ (result.0.refunds ≡ (env.others after_settled_sum after).refunds)))
      × ((status_of result.1 ≡ some status) ⊎ (result.1.code ≡ 1500)))
    ⊎ ((env.faults update_refund ≢ succeeds) × (result.0 ≡ before) × (result.1.code ≡ 1500))

update_refund_with_error-IsClosed :
    (env : Env) (refund_no : Bytes) (db : Db)
    → IsClosed env refund_no db (update_refund_with_error env refund_no db)
unfolding update_refund_with_error
update_refund_with_error-IsClosed env refund_no db = elim (Fault-cases (env.faults update_refund)) [
  | inl sent ↦ inl (sent, rw (update_refund_with_error, sent) refl)
  | inr (what, inl broken) ↦
      inr (λ h. ground (arith, h, broken), rw (update_refund_with_error, broken) refl)
  | inr (what, inr broken) ↦
      inr (λ h. ground (arith, h, broken), rw (update_refund_with_error, broken) refl)
]

settle_order-refunds :
    (env : Env) (r : Refund) (status : RefundStatus) (done : Response) (db : Db)
    → (status_of done ≡ some status)
    → (((settle_order env r.order_no r.total_fen status done db).0.refunds ≡ db.refunds)
        ⊎ ((settle_order env r.order_no r.total_fen status done db).0.refunds
            ≡ (env.others after_settled_sum db).refunds))
      × ((status_of (settle_order env r.order_no r.total_fen status done db).1 ≡ some status)
          ⊎ ((settle_order env r.order_no r.total_fen status done db).1.code ≡ 1500))
unfolding settle_order settle_on_sum write_refunded_order
settle_order-refunds env r status done db told = (ground (arith, told), ground (arith, told))

update_refund_with_success-IsBooked :
    (env : Env) (r : Refund) (status : RefundStatus) (refund_id : Bytes) (db : Db)
    → IsBooked env r status refund_id db (
        update_refund_with_success env r.refund_no status refund_id r.order_no r.payment_no r.amount
          r.total_fen db)
unfolding update_refund_with_success refund_created
update_refund_with_success-IsBooked env r status refund_id db =
    elim (Fault-cases (env.faults update_refund)) [
      | inl sent ↦
          let after : Db = env.others after_refund_update (
            written r.refund_no
              (λ row. record row {
                status = status;
                channel_refund_no = some refund_id;
                updated_at = env.now;
              })
              db) in
          let settled =
            settle_order-refunds env r status
              (refund_created env r.refund_no r.order_no r.payment_no r.amount refund_id status)
              after refl in
          inl (
            sent,
            (after, refl, rw (update_refund_with_success, sent) settled.0),
            rw (update_refund_with_success, sent) settled.1,
          )
      | inr (what, inl broken) ↦ inr (
        λ h. ground (arith, h, broken),
        rw (update_refund_with_success, broken) refl,
        rw (update_refund_with_success, broken) refl,
      )
      | inr (what, inr broken) ↦ inr (
        λ h. ground (arith, h, broken),
        rw (update_refund_with_success, broken) refl,
        rw (update_refund_with_success, broken) refl,
      )
    ]

not_empty : (s : Bytes) → is_empty s ≡ false → s ≢ []
not_empty s h e = ground (arith, h, e)

nothing : (s : Bytes) → is_empty s ≡ true → s ≡ []
nothing [] h = refl
nothing (c ∷ s) h = absurd (ground (arith, h))

something : (s : Bytes) → s ≢ [] → is_empty s ≡ false
something [] n = absurd (n refl)
something (c ∷ s) n = refl

Closes-DidNotHappen : (answer : ChannelReply) → Closes answer → DidNotHappen answer
Closes-DidNotHappen answer (inl (refused, certain)) = inl (
  not_empty answer.error refused,
  (refund_certainly_did_not_happen-IsRefusal answer.error).0 certain,
)
Closes-DidNotHappen answer (inr (clean, inl lost)) =
    inr (nothing answer.error clean, inl (map_refund_status-fail answer.status lost))
Closes-DidNotHappen answer (inr (clean, inr (unknown, coded))) = inr (
  nothing answer.error clean,
  inr (map_refund_status-none answer.status unknown, not_empty answer.code coded),
)

DidNotHappen-Closes : (answer : ChannelReply) → DidNotHappen answer → Closes answer
DidNotHappen-Closes answer (inl (refused, certain)) = inl (
  something answer.error refused,
  (refund_certainly_did_not_happen-IsRefusal answer.error).1 certain,
)
DidNotHappen-Closes answer (inr (clean, inl lost)) =
    inr (rw clean refl, inl (IsFailed-map_refund_status answer.status lost))
DidNotHappen-Closes answer (inr (clean, inr (unknown, coded))) = inr (
  rw clean refl,
  inr (unknown-map_refund_status answer.status unknown, something answer.code coded),
)

-- Every answer of WeChat has one of three ends. The refund did not happen: its open row reads
-- REFUND_FAIL, unless the UPDATE fails, and the caller reads 1502 and REFUND_FAIL. Nobody can say: the
-- tables stay, and the caller reads 1502 and REFUNDING. Or the answer has no error and the state SUCCESS
-- or PROCESSING: the open row has that status and WeChat's number, and the caller reads it or 1500; a
-- failing UPDATE leaves the tables and answers 1500.
pub on_wechat_reply-ends :
    (env : Env) (r : Refund) (answer : ChannelReply) (db : Db)
    → (DidNotHappen answer
        × IsClosed env r.refund_no db (on_wechat_reply env r answer db).0
        × ((on_wechat_reply env r answer db).1.code ≡ 1502)
        × (status_of (on_wechat_reply env r answer db).1 ≡ some refund_fail))
      ⊎ (((¬ DidNotHappen answer)
            × ((on_wechat_reply env r answer db).0 ≡ db)
            × ((on_wechat_reply env r answer db).1.code ≡ 1502)
            × (status_of (on_wechat_reply env r answer db).1 ≡ some refunding))
          ⊎ ((s : RefundStatus) × (answer.error ≡ [])
              × Means answer.status s
              × IsBooked env r s answer.refund_id db (on_wechat_reply env r answer db)))
on_wechat_reply-ends env r answer db = elim (on_wechat_reply-cases env r answer db) [
  | inl (closes, tables, code, told) ↦ inl (
    Closes-DidNotHappen answer closes,
    subst (IsClosed env r.refund_no db) (sym tables)
        (update_refund_with_error-IsClosed env r.refund_no db),
    code,
    told,
  )
  | inr (inl (open_end, tables, code, told)) ↦
      inr (inl (λ h. open_end (DidNotHappen-Closes answer h), tables, code, told))
  | inr (inr (s, clean, known, alive, same)) ↦ inr (
      inr (
        s,
        nothing answer.error clean,
        map_refund_status-Means answer.status s known alive,
        subst (IsBooked env r s answer.refund_id db) (sym same)
            (update_refund_with_success-IsBooked env r s answer.refund_id db),
      ))
]
