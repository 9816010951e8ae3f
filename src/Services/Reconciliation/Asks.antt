-- ===== src/Services/Reconciliation/Asks.antt =====
-- About the orders that the sweeps of `syncPendingWechatOrders` and `syncPendingAlipayOrders` ask for.
use drogon_pay.Common.{
  ℕ, ◌+◌, ◌≤◌, ◌<◌, ◌≡◌, refl, sym, ap, subst, ◌↔◌, ◌⊎◌, inl, inr, true, List, [], ◌∷◌, arith,
  Option-cases, Bytes, codes, length,
}
use drogon_pay.Common.Find.{bytes_eq_iff}
use drogon_pay.Models.Status.{OrderStatus, created, paying, paid, refunded, closed, failed}
use drogon_pay.Models.Tables.{OrderRow, Db, Fault, select, succeeds}
use drogon_pay.Models.Members.{Among, Among-select}
use drogon_pay.Services.Reconciliation.{
  WechatView, AlipayView, ReconcileEnv, newest_first, Swept, before_sweep, is_waiting, is_pending,
  pending_orders, sweep_wechat_orders, sweep_alipay_orders, unless_fault,
  sync_pending_wechat_orders, sync_pending_alipay_orders,
}
use drogon_pay.Services.Reconciliation.Newest.{
  take-Among, holds-Among, AllFrom, newest_first-Among, pending_orders-newest,
}

-- The orders that a sweep is meant for: those of the channel that are PAYING, or CREATED more than five
-- minutes ago.
abbrev pub IsWaiting : ReconcileEnv → Bytes → OrderRow → Type 0
IsWaiting env channel row =
    (row.channel ≡ channel)
    × ((row.status ≡ paying)
        ⊎ ((row.status ≡ created) × ((env.times row).created_at + 300000000 < env.now)))

is_waiting_iff :
    (env : ReconcileEnv) (row : OrderRow) (s : OrderStatus)
    → (is_waiting env row s ≡ true)
      ↔ ((s ≡ paying) ⊎ ((s ≡ created) × ((env.times row).created_at + 300000000 < env.now)))
is_waiting_iff env row created = ground arith
is_waiting_iff env row paying = ground arith
is_waiting_iff env row paid = ground arith
is_waiting_iff env row refunded = ground arith
is_waiting_iff env row closed = ground arith
is_waiting_iff env row failed = ground arith

is_pending_iff :
    (env : ReconcileEnv) (channel : Bytes) (row : OrderRow)
    → (is_pending env channel row ≡ true) ↔ IsWaiting env channel row
is_pending_iff env channel row =
    ground (arith, bytes_eq_iff row.channel channel, is_waiting_iff env row row.status)

abbrev pub Every : {A : Type 0} → (A → Type 0) → List A → Type 0
Every P [] = Unit {0}
Every P (x ∷ xs) = P x × Every P xs

Every-from : {A : Type 0} (P : A → Type 0) (xs : List A) → ((x : A) → Among x xs → P x) → Every P xs
Every-from P [] f = tt
Every-from P (x ∷ xs) f = (f x (inl refl), Every-from P xs (λ y m. f y (inr m)))

from-Among :
    {A : Type 0} (key : A → ℕ) (least : ℕ) (x : A) (xs : List A)
    → AllFrom key least xs
    → Among x xs
    → least ≤ key x
from-Among key least x [] every m = elim m [ ]
from-Among key least x (y ∷ ys) (le, every) (inl e) = subst (λ z. least ≤ key z) e le
from-Among key least x (y ∷ ys) (le, every) (inr m) = from-Among key least x ys every m

-- An order is asked for, or the batch is full, and every order of the batch is asked for, is itself a
-- waiting order of the table, and was updated no earlier.
abbrev pub AskedFor : ReconcileEnv → Bytes → OrderRow → Db → List Bytes → Type 0
AskedFor env channel row db queried =
    Among row.order_no queried
    ⊎ ((length (pending_orders env channel db) ≡ env.batch_size)
        × Every
            (λ other.
              Among other db.orders
              × IsWaiting env channel other
              × ((env.times row).updated_at ≤ (env.times other).updated_at)
              × Among other.order_no queried)
            (pending_orders env channel db))

pending_orders-AskedFor :
    (env : ReconcileEnv) (channel : Bytes) (row : OrderRow) (db : Db) (queried : List Bytes)
    → IsWaiting env channel row
    → Among row db.orders
    → ((other : OrderRow)
        → Among other (pending_orders env channel db)
        → Among other.order_no queried)
    → AskedFor env channel row db queried
pending_orders-AskedFor env channel row db queried waits m asks =
    elim (pending_orders-newest env channel row db ((is_pending_iff env channel row).1 waits) m) [
      | inl taken ↦ inl (asks row taken)
      | inr (full, newer) ↦ inr (
        full,
        Every-from _ (pending_orders env channel db) (λ other n. (
          Among-select (is_pending env channel) other db.orders (chosen other n),
          (is_pending_iff env channel other).0
              (holds-Among (is_pending env channel) other db.orders (chosen other n)),
          from-Among key ((env.times row).updated_at) other (pending_orders env channel db) newer n,
          asks other n,
        )),
      )
    ]
  where
    key : OrderRow → ℕ
    key other = (env.times other).updated_at

    chosen :
        (other : OrderRow)
        → Among other (pending_orders env channel db)
        → Among other (select (is_pending env channel) db.orders)
    chosen other n = newest_first-Among key other (select (is_pending env channel) db.orders) (
        take-Among env.batch_size other
          (newest_first key (select (is_pending env channel) db.orders)) n)

module _ (env : ReconcileEnv) where
  sweep_wechat_orders-keeps :
      (channel : WechatView) (order_no : Bytes) (rows : List OrderRow) (swept : Swept)
      → Among order_no swept.queried
      → Among order_no (sweep_wechat_orders env channel rows swept).queried
  unfolding sweep_wechat_orders
  sweep_wechat_orders-keeps channel order_no [] swept m = m
  sweep_wechat_orders-keeps channel order_no (row ∷ rows) swept m =
      elim (Option-cases (channel.query_payment row.order_no)) [
        | inl silent ↦
            rw (sweep_wechat_orders, silent)
              (sweep_wechat_orders-keeps channel order_no rows _ (inr m))
        | inr (answer, answers) ↦
            rw (sweep_wechat_orders, answers)
              (sweep_wechat_orders-keeps channel order_no rows _ (inr m))
      ]

  sweep_wechat_orders-asks :
      (channel : WechatView) (order : OrderRow) (rows : List OrderRow) (swept : Swept)
      → Among order rows
      → Among order.order_no (sweep_wechat_orders env channel rows swept).queried
  unfolding sweep_wechat_orders
  sweep_wechat_orders-asks channel order [] swept m = elim m [ ]
  sweep_wechat_orders-asks channel order (row ∷ rows) swept (inl e) =
      elim (Option-cases (channel.query_payment row.order_no)) [
        | inl silent ↦
            rw (sweep_wechat_orders, silent)
              (sweep_wechat_orders-keeps channel order.order_no rows _
                (inl (ap (λ z. z.order_no) e)))
        | inr (answer, answers) ↦
            rw (sweep_wechat_orders, answers)
              (sweep_wechat_orders-keeps channel order.order_no rows _
                (inl (ap (λ z. z.order_no) e)))
      ]
  sweep_wechat_orders-asks channel order (row ∷ rows) swept (inr m) =
      elim (Option-cases (channel.query_payment row.order_no)) [
        | inl silent ↦
            rw (sweep_wechat_orders, silent) (sweep_wechat_orders-asks channel order rows _ m)
        | inr (answer, answers) ↦
            rw (sweep_wechat_orders, answers) (sweep_wechat_orders-asks channel order rows _ m)
      ]

  sweep_alipay_orders-keeps :
      (channel : AlipayView) (order_no : Bytes) (rows : List OrderRow) (swept : Swept)
      → Among order_no swept.queried
      → Among order_no (sweep_alipay_orders env channel rows swept).queried
  unfolding sweep_alipay_orders
  sweep_alipay_orders-keeps channel order_no [] swept m = m
  sweep_alipay_orders-keeps channel order_no (row ∷ rows) swept m =
      elim (Option-cases (channel.query_payment row.order_no)) [
        | inl silent ↦
            rw (sweep_alipay_orders, silent)
              (sweep_alipay_orders-keeps channel order_no rows _ (inr m))
        | inr (answer, answers) ↦
            rw (sweep_alipay_orders, answers)
              (sweep_alipay_orders-keeps channel order_no rows _ (inr m))
      ]

  sweep_alipay_orders-asks :
      (channel : AlipayView) (order : OrderRow) (rows : List OrderRow) (swept : Swept)
      → Among order rows
      → Among order.order_no (sweep_alipay_orders env channel rows swept).queried
  unfolding sweep_alipay_orders
  sweep_alipay_orders-asks channel order [] swept m = elim m [ ]
  sweep_alipay_orders-asks channel order (row ∷ rows) swept (inl e) =
      elim (Option-cases (channel.query_payment row.order_no)) [
        | inl silent ↦
            rw (sweep_alipay_orders, silent)
              (sweep_alipay_orders-keeps channel order.order_no rows _
                (inl (ap (λ z. z.order_no) e)))
        | inr (answer, answers) ↦
            rw (sweep_alipay_orders, answers)
              (sweep_alipay_orders-keeps channel order.order_no rows _
                (inl (ap (λ z. z.order_no) e)))
      ]
  sweep_alipay_orders-asks channel order (row ∷ rows) swept (inr m) =
      elim (Option-cases (channel.query_payment row.order_no)) [
        | inl silent ↦
            rw (sweep_alipay_orders, silent) (sweep_alipay_orders-asks channel order rows _ m)
        | inr (answer, answers) ↦
            rw (sweep_alipay_orders, answers) (sweep_alipay_orders-asks channel order rows _ m)
      ]

  unless_fault-succeeds :
      (fault : Fault) (sweep : Swept → Swept) (swept : Swept)
      → fault ≡ succeeds
      → unless_fault env fault sweep swept ≡ sweep swept
  unless_fault-succeeds fault sweep swept e = rw e refl

-- A run of the WeChat sweep whose search does not fail asks WeChat for every order of the channel that is
-- PAYING, or CREATED more than five minutes ago; or its batch is full, and every order of the batch is
-- such a row of the table itself, was updated no earlier, and is asked for.
pub sync_pending_wechat_orders-AskedFor :
    (env : ReconcileEnv) (channel : WechatView) (row : OrderRow) (db : Db)
    → env.find_wechat_fault ≡ succeeds
    → IsWaiting env (codes "wechat") row
    → Among row db.orders
    → AskedFor env
        (codes "wechat")
        row
        db
        (sync_pending_wechat_orders env channel (before_sweep db)).queried
unfolding sync_pending_wechat_orders
sync_pending_wechat_orders-AskedFor env channel row db found waits m =
    subst (λ (swept : Swept). AskedFor env (codes "wechat") row db swept.queried)
      (sym (unless_fault-succeeds env env.find_wechat_fault _ (before_sweep db) found))
      (pending_orders-AskedFor env (codes "wechat") row db _ waits m
        (λ other n. sweep_wechat_orders-asks env channel other _ (before_sweep db) n))

-- A run of the Alipay sweep whose search does not fail asks Alipay for every order of the channel that is
-- PAYING, or CREATED more than five minutes ago; or its batch is full, and every order of the batch is
-- such a row of the table itself, was updated no earlier, and is asked for.
pub sync_pending_alipay_orders-AskedFor :
    (env : ReconcileEnv) (channel : AlipayView) (row : OrderRow) (db : Db)
    → env.find_alipay_fault ≡ succeeds
    → IsWaiting env (codes "alipay") row
    → Among row db.orders
    → AskedFor env
        (codes "alipay")
        row
        db
        (sync_pending_alipay_orders env channel (before_sweep db)).queried
unfolding sync_pending_alipay_orders
sync_pending_alipay_orders-AskedFor env channel row db found waits m =
    subst (λ (swept : Swept). AskedFor env (codes "alipay") row db swept.queried)
      (sym (unless_fault-succeeds env env.find_alipay_fault _ (before_sweep db) found))
      (pending_orders-AskedFor env (codes "alipay") row db _ waits m
        (λ other n. sweep_alipay_orders-asks env channel other _ (before_sweep db) n))
