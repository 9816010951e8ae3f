-- ===== src/Services/Callback/Reserve.antt =====
-- The reservation of a notification's key: `dropUnfinalizedReservation`, the INSERT that takes it and
-- `finalizeReservation`.
use drogon_pay.Common.{
  ℕ, ◌+◌, ◌*◌, Bool, true, false, not, ◌&&◌, Option, none, some, List, ◌∷◌, ◌==◌, if◌then◌else◌,
  Bytes, any, bytes_eq,
}
use drogon_pay.Models.Tables.{Fault, select, update_where, succeeds, raises, mapper_fails}
use drogon_pay.Services.Idempotency.{IdempotencyRow, has_key}

-- `idempotency_key = $1 AND response_snapshot IS NULL`
abbrev pub is_unfinalized : Bytes → IdempotencyRow → Bool
is_unfinalized key row =
    has_key key row && (elim row.response_snapshot [ none ↦ true | some text ↦ false ])

-- The answer is the same whether the DELETE succeeds or not.
unfoldable pub drop_unfinalized_reservation :
    Fault → Bytes → List IdempotencyRow → List IdempotencyRow
drop_unfinalized_reservation succeeds key rows = select (λ row. not (is_unfinalized key row)) rows
drop_unfinalized_reservation (raises what) key rows = rows
drop_unfinalized_reservation (mapper_fails what) key rows = rows

-- `newReservationToken`: the UUID without its dashes.
abbrev pub new_reservation_token : Bytes → Bytes
new_reservation_token uuid = select (λ c. not (c == b'-')) uuid

abbrev pub callback_reservation : Bytes → Bytes → Bytes → ℕ → IdempotencyRow
callback_reservation key hash token now = record {
  idempotency_key = key;
  request_hash = hash;
  response_snapshot = none;
  owner_token = some token;
  expire_at = some (now + 7 * 24 * 60 * 60 * 1000000);
}

-- `ON CONFLICT (idempotency_key) DO NOTHING`: `none` is no row.
unfoldable pub reserve_key :
    Bytes → Bytes → Bytes → ℕ → List IdempotencyRow → Option (List IdempotencyRow)
reserve_key key hash token now rows =
    if any (has_key key) rows then none else some (callback_reservation key hash token now ∷ rows)

-- `idempotency_key = $2 AND owner_token = $3`
abbrev pub is_owned : Bytes → Bytes → IdempotencyRow → Bool
is_owned key token row =
    has_key key row && (elim row.owner_token [ none ↦ false | some other ↦ bytes_eq other token ])

-- What the caller of `finalizeReservation` is told.
pub data Finalized : Type 0 where
  finalized : List IdempotencyRow → Finalized
  lost : Finalized
  finalize_error : Bytes → Finalized
  finalize_throws : Bytes → Finalized

unfoldable pub finalize_reservation :
    Fault → Bytes → Bytes → Bytes → List IdempotencyRow → Finalized
finalize_reservation (raises what) key token snapshot rows = finalize_error what
finalize_reservation (mapper_fails what) key token snapshot rows = finalize_throws what
finalize_reservation succeeds key token snapshot rows =
    if any (is_owned key token) rows
    then finalized (
        update_where (is_owned key token) (λ row. record row { response_snapshot = some snapshot })
          rows)
    else lost
