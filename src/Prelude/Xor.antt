-- ===== src/Prelude/Xor.antt =====
-- `a ^ b` on bytes.
use Prim.Native.Nat.{ℕ, zero, suc, ◌+◌, ◌<◌, bit_xor}
use mathlib.Core.Path.{◌≡◌, refl}
use mathlib.Core.Bool.{Bool, true}
use native.Mathlib.Omega.{arith}
use swim_protocol.Prelude.Tests.{◌==◌, if◌then◌else◌}

-- How many of the first numbers fail a test, and how many pairs of bytes fail the law.
misses : (ℕ → Bool) → ℕ → ℕ
misses test zero = 0
misses test (suc k) = misses test k + (if test k then 0 else 1)

no_miss : (test : ℕ → Bool) (bound i : ℕ) → misses test bound ≡ 0 → i < bound → test i ≡ true
unfolding misses
no_miss test zero i none_failed small = absurd (omega arith)
no_miss test (suc k) i none_failed small = ground (arith, no_miss test k i)

abbrev undone : ℕ → ℕ → Bool
undone left right = bit_xor (bit_xor left right) right == left

bytes_undone : misses (λ left. misses (undone left) 256 == 0) 256 ≡ 0
unfolding misses
bytes_undone = refl

pub xor_twice : (a b : ℕ) → a < 256 → b < 256 → bit_xor (bit_xor a b) b ≡ a
xor_twice a b small_a small_b =
    let of_a = no_miss (λ left. misses (undone left) 256 == 0) 256 a bytes_undone small_a in
    let of_b = no_miss (undone a) 256 b (ground (arith, of_a)) small_b in ground (arith, of_b)
