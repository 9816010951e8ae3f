-- ===== src/Services/Callback/Window/Fresh.antt =====
-- About the timestamps that `isTimestampFresh` accepts.

use drogon_pay.Common.{
  ℕ, ◌+◌, ◌^◌, ◌≤◌, ◌<◌, ◌≡◌, ◌↔◌, ◌⊎◌, none, some, [], ◌∷◌, arith, if◌then◌else◌, Bytes, codes,
}
use drogon_pay.Common.Int.{ℤ, pos_part, neg_part, ◌-ℤ◌, ltb_ℤ, pos, negsuc}
use drogon_pay.Services.Callback.Window.{
  skip_spaces, leading_digits, read_positive, read_negative, read_sign, stoll_signed, wrap_int64,
  llabs, max_skew_seconds, is_timestamp_fresh,
}

read_positive-range :
    (s : Bytes) (t : ℤ) → read_positive s ≡ some t → (pos_part t < 2 ^ 63) × (neg_part t ≤ 2 ^ 63)
unfolding read_positive
read_positive-range [] t e = absurd (ground (arith, e))
read_positive-range (c ∷ s) t e = ground (arith, e)

read_negative-range :
    (s : Bytes) (t : ℤ) → read_negative s ≡ some t → (pos_part t < 2 ^ 63) × (neg_part t ≤ 2 ^ 63)
unfolding read_negative
read_negative-range [] t e = absurd (ground (arith, e))
read_negative-range (c ∷ s) t e = ground (arith, e)

-- What `std::stoll` returns fits 64 bits.
pub stoll_signed-range :
    (s : Bytes) (t : ℤ) → stoll_signed s ≡ some t → (pos_part t < 2 ^ 63) × (neg_part t ≤ 2 ^ 63)
unfolding stoll_signed read_sign
stoll_signed-range s t e = on_sign (skip_spaces s) e
  where
    on_sign : (r : Bytes) → read_sign r ≡ some t → (pos_part t < 2 ^ 63) × (neg_part t ≤ 2 ^ 63)
    on_sign [] q = absurd (ground (arith, q))
    on_sign (c ∷ r) q = ground (
      arith,
      q,
      read_positive-range (leading_digits r) t,
      read_negative-range (leading_digits r) t,
      read_positive-range (leading_digits (c ∷ r)) t,
    )

-- A timestamp that is a number `t` counts as fresh, at a time that fits 64 bits with
-- 300 seconds more, just when `t` is within
-- 300 seconds of it, or is the one number 2^63 seconds before it, where the distance has no room.
pub is_timestamp_fresh_iff :
    (now_sec : ℕ) (timestamp : Bytes) (t : ℤ)
    → now_sec + 300 < 2 ^ 63
    → stoll_signed timestamp ≡ some t
    → (is_timestamp_fresh now_sec timestamp ≡ none) ↔ (
        ((now_sec + neg_part t ≤ pos_part t + 300) × (pos_part t ≤ now_sec + neg_part t + 300))
        ⊎ (now_sec + neg_part t ≡ 2 ^ 63))
unfolding is_timestamp_fresh ◌-ℤ◌
is_timestamp_fresh_iff now_sec timestamp t now_fits read =
    rw (is_timestamp_fresh, read) (near t (stoll_signed-range timestamp t read))
  where
    near :
        (u : ℤ)
        → (pos_part u < 2 ^ 63) × (neg_part u ≤ 2 ^ 63)
        → ((if ltb_ℤ (pos max_skew_seconds) (llabs (wrap_int64 (pos now_sec -ℤ u)))
              then some (codes "timestamp out of acceptable window")
              else none)
            ≡ none)
          ↔ (((now_sec + neg_part u ≤ pos_part u + 300) × (pos_part u ≤ now_sec + neg_part u + 300))
              ⊎ (now_sec + neg_part u ≡ 2 ^ 63))
    near (pos n) range = ground (arith, range, now_fits)
    near (negsuc n) range = ground (arith, range, now_fits)
