-- ===== src/Services/Idempotency/Replay.antt =====
-- About one key of `checkDatabase` and `updateResult`: fresh, reserved, and answered.
use drogon_pay.Common.{
  ℕ, ◌+◌, ◌*◌, ◌<◌, ◌≡◌, refl, true, false, ◌&&◌, Option, none, some, List, [], ◌∷◌, arith,
  if◌then◌else◌, Bytes, codes, any, bytes_eq, is_empty,
}
use drogon_pay.Common.Find.{bytes_eq_iff}
use drogon_pay.Models.Tables.{reply, select, succeeds}
use drogon_pay.Services.Idempotency.{
  IdempotencyRow, TablePoint, IdempotencyEnv, has_key, has_hash, is_live, reservation,
  judge_snapshot, judge_rows, select_key, check_database, update_result, started, replay, conflict,
  after_reserve,
}
use drogon_pay.Services.Idempotency.Rows.{
  select-and, select-update_where, any-and, update_where-and, select-none, any-select,
}

-- Other clients leave the rows of a key alone.
abbrev pub KeepsKey : {J : Type 0} → IdempotencyEnv J → Bytes → Type 0
KeepsKey env key =
    (p : TablePoint) (rows : List IdempotencyRow)
    → select (has_key key) (env.other_clients p rows) ≡ select (has_key key) rows

-- The statements of a request succeed.
pub record RunsClean {J : Type 0} (env : IdempotencyEnv J) : Type 0 where
  pub reserves : env.reserve_fault ≡ succeeds
  pub selects : env.select_fault ≡ succeeds
  pub updates : env.update_fault ≡ succeeds

-- The only row of the key is live at `now`, and has the hash and the snapshot.
pub record IsStored (key hash : Bytes) (snapshot : Option Bytes) (now : ℕ)
    (rows : List IdempotencyRow) : Type 0 where
  pub row : IdempotencyRow
  pub only : select (has_key key) rows ≡ row ∷ []
  pub hash_is : row.request_hash ≡ hash
  pub snapshot_is : row.response_snapshot ≡ snapshot
  pub live : is_live now row ≡ true

pub bytes_eq_refl : (s : Bytes) → bytes_eq s s ≡ true
bytes_eq_refl s = (bytes_eq_iff s s).1 refl

pub judge_snapshot-read :
    {J : Type 0}
    → (env : IdempotencyEnv J) (text : Bytes) (answer : J) → env.read text ≡ some answer
    → judge_snapshot env (some text) ≡ replay answer
unfolding judge_snapshot
judge_snapshot-read env text answer reads = ground (arith, reads)

module _ {J : Type 0} (env : IdempotencyEnv J) (key hash : Bytes) (keeps : KeepsKey env key)
    (clean : RunsClean env) where
  -- A fresh key is reserved.
  pub check_database-fresh :
      (now : ℕ) (rows : List IdempotencyRow)
      → is_empty key ≡ false
      → any (has_key key) rows ≡ false
      → now < env.reserve_time + env.ttl_seconds * 1000000
      → (check_database env key hash rows ≡ (reservation env key hash ∷ rows, started))
        × IsStored key hash none now (reservation env key hash ∷ rows)
  unfolding check_database
  check_database-fresh now rows named fresh live = (
    rw (named, clean.reserves, fresh) refl,
    record {
      row = reservation env key hash;
      only = ground (arith, select-none (has_key key) rows fresh, bytes_eq_refl key);
      hash_is = refl;
      snapshot_is = refl;
      live = ground arith;
    },
  )

  -- What a key with one live row answers.
  pub check_database-stored :
      (stored : Bytes) (snapshot : Option Bytes) (rows : List IdempotencyRow)
      → is_empty key ≡ false
      → IsStored key stored snapshot env.select_time rows
      → (check_database env key hash rows).1 ≡ (
          if bytes_eq stored hash
          then judge_snapshot env snapshot
          else conflict (codes "idempotency key conflict"))
  unfolding check_database select_key judge_rows reply judge_snapshot
  check_database-stored stored snapshot rows named s =
      rw
        (
          named,
          clean.reserves,
          any-select (has_key key) s.row rows [] s.only,
          clean.selects,
          select-and (has_key key) (is_live env.select_time) (env.other_clients after_reserve rows),
          keeps after_reserve rows,
          s.only,
          s.live,
          s.hash_is,
          s.snapshot_is,
        )
        refl

  -- The answer is stored in the reserved row.
  pub update_result-IsStored :
      (response : J) (now : ℕ) (snapshot : Option Bytes) (rows : List IdempotencyRow)
      → IsStored key hash snapshot now rows
      → ((update_result env key hash response rows).1 ≡ true)
        × IsStored key hash
            (some (env.write hash response))
            now
            (update_result env key hash response rows).0
  unfolding update_result
  update_result-IsStored response now snapshot rows s = (
    rw
        (
          clean.updates,
          any-and (has_key key) (has_hash hash) rows,
          s.only,
          s.hash_is,
          bytes_eq_refl hash,
        )
        refl,
    record {
      row = record s.row { response_snapshot = some (env.write hash response) };
      only =
          rw
            (
              clean.updates,
              select-update_where (has_key key) (λ row. has_key key row && has_hash hash row)
                  (λ row. record row { response_snapshot = some (env.write hash response) })
                  (λ x. refl) rows,
              update_where-and (has_key key) (has_hash hash)
                  (λ row. record row { response_snapshot = some (env.write hash response) }) rows,
              s.only,
              s.hash_is,
              bytes_eq_refl hash,
            )
            refl;
      hash_is = s.hash_is;
      snapshot_is = refl;
      live = s.live;
    },
  )

  -- Other clients leave a stored answer alone.
  pub other_clients-IsStored :
      (p : TablePoint) (now : ℕ) (snapshot : Option Bytes) (rows : List IdempotencyRow)
      → IsStored key hash snapshot now rows
      → IsStored key hash snapshot now (env.other_clients p rows)
  other_clients-IsStored p now snapshot rows s = record {
    row = s.row;
    only = rw (keeps p rows) s.only;
    hash_is = s.hash_is;
    snapshot_is = s.snapshot_is;
    live = s.live;
  }
