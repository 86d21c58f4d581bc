-- ===== src/Examples/Numbers.antt =====
-- Difficulties, hashes and varints.
use Prim.Native.Nat.{compare}
use p2pool_observer.Prelude.{
  ℕ, zero, suc, ◌+◌, ◌*◌, ◌^◌, ◌-◌, ◌<◌, ◌≤◌, ◌≡◌, refl, arith, ◌/◌, ◌↔◌, true, List, All, length,
  replicate,
}
use p2pool_observer.Codec.{uvarint, IsByte, le_value}
use p2pool_observer.Utils.Number.{uvarint64_size}
use p2pool_observer.Utils.Number.Size.{length-uvarint}
use p2pool_observer.Types.Uint128.{Difficulty, exact, value}
use p2pool_observer.Types.Difficulty.{cmp, target}
use p2pool_observer.Types.Difficulty.Arithmetic.{cmp-compare, target_bounds}
use p2pool_observer.Types.ProofOfWork.{check_pow}
use p2pool_observer.Types.ProofOfWork.Exact.{check_pow_iff}
use p2pool_observer.Types.Hash.{compare_hash}
use p2pool_observer.Types.Hash.Order.{compare_hash-compare}
use p2pool_observer.Examples.{some_key}

abbrev wide : Difficulty
wide = record { lo = 2 ^ 64 - 1; hi = 5 }

abbrev small : Difficulty
small = record { lo = 100000; hi = 0 }

cmp-compare_example : cmp wide small ≡ compare (value wide) (value small)
cmp-compare_example = cmp-compare wide small (omega arith) (omega arith)

target_bounds_example :
    (2 ^ 64 ≤ target exact small * value small)
    × (target exact small * value small < 2 ^ 64 + value small)
target_bounds_example =
    target_bounds exact small (omega arith) (unfold value in omega arith)
      (unfold value in omega arith)

some_key-IsByte : (n : ℕ) → All IsByte (replicate n 7)
some_key-IsByte zero = tt
some_key-IsByte (suc n) = (omega arith, some_key-IsByte n)

compare_hash-compare_example :
    compare_hash some_key some_key ≡ compare (le_value some_key) (le_value some_key)
compare_hash-compare_example =
    compare_hash-compare some_key some_key refl refl (some_key-IsByte 32) (some_key-IsByte 32)

length-uvarint_example : length (uvarint 300) ≡ uvarint64_size 300
length-uvarint_example = length-uvarint 300 (omega arith)

abbrev ones : List ℕ
ones = replicate 32 1

ones-bounds : (2 ^ 128 ≤ le_value ones) × (le_value ones < 2 ^ 256)
unfolding le_value
ones-bounds = (omega arith, omega arith)

check_pow_iff_example :
    (check_pow (λ a b. a / b) (record { lo = 5; hi = 0 }) ones ≡ true)
    ↔ (value (record { lo = 5; hi = 0 }) * le_value ones < 2 ^ 256)
check_pow_iff_example =
    check_pow_iff (λ a b. a / b) (λ a b h k. refl) (record { lo = 5; hi = 0 }) ones
      (record { lo_fits = omega arith; hi_fits = omega arith }) ones-bounds.0 ones-bounds.1
