-- ===== src/Common/Table.antt =====
-- Tests of a range of numbers by one evaluation, for facts about bytes.
use Prim.Native.Nat.{bit_and, ◌*◌, ◌/◌, ℕ, zero, suc, ◌<◌, ◌+◌}
use mathlib.Core.Bool.{Bool, true, false}
use mathlib.Core.Path.{◌≡◌, refl}
use native.Mathlib.Omega.{arith}
use drogon_pay.Common.Tests.{◌==◌, if◌then◌else◌, ==_iff}

-- `count` numbers from `start` on.
unfoldable pub holds_from : ℕ → ℕ → (ℕ → Bool) → Bool
holds_from start zero test = true
holds_from start (suc count) test = if test start then holds_from (suc start) count test else false

pub holds_from-at :
    (count start i : ℕ) (test : ℕ → Bool)
    → i < count
    → holds_from start count test ≡ true
    → test (start + i) ≡ true
unfolding holds_from
holds_from-at zero start i test small found = absurd (omega arith)
holds_from-at (suc count) start zero test small found = ground (arith, found)
holds_from-at (suc count) start (suc i) test small found =
    ground (arith, found, holds_from-at count (suc start) i test)

pub holds_below-at :
    (count i : ℕ) (test : ℕ → Bool) → i < count → holds_from 0 count test ≡ true → test i ≡ true
holds_below-at count i test small found = ground (arith, holds_from-at count 0 i test small found)

high_bits_table : holds_from 0 256 (λ b. bit_and b 0xC0 == b / 64 * 64) ≡ true
unfolding holds_from
high_bits_table = refl

-- The two highest bits of a byte.
pub bit_and-high_bits : (b : ℕ) → b < 256 → bit_and b 0xC0 ≡ b / 64 * 64
bit_and-high_bits b h =
    (==_iff _ _).0 (holds_below-at 256 b (λ i. bit_and i 0xC0 == i / 64 * 64) h high_bits_table)
