-- ===== src/Types/Difficulty.antt =====
-- types/difficulty.go: 128-bit difficulties, over the operations of the uint128 package.
pub mod Arithmetic
use Prim.Native.Nat.{compare, Ordering}
use p2pool_observer.Prelude.{
  ℕ, ◌+◌, ◌-◌, ◌*◌, ◌/◌, ◌%◌, ◌^◌, ◌≤◌, ◌<◌, ◌≡◌, refl, arith, Bool, true, false, ◌&&◌, ◌||◌, ltb,
  leb, ◌==◌, if◌then◌else◌,
}
pub use p2pool_observer.Types.Uint128.{Difficulty, IsU128}
use p2pool_observer.Types.Uint128.{Uint128}

abbrev pub zero_difficulty : Difficulty
zero_difficulty = record { lo = 0; hi = 0 }

abbrev pub max_difficulty : Difficulty
max_difficulty = record { lo = 2 ^ 64 - 1; hi = 2 ^ 64 - 1 }

-- The struct comparison == of Go.
unfoldable pub same : Difficulty → Difficulty → Bool
same d v = d.lo == v.lo && d.hi == v.hi

-- Difficulty.Cmp: -1, 0 and 1 are `lt`, `eq` and `gt`.
unfoldable pub cmp : Difficulty → Difficulty → Ordering
unfolding same
cmp d v =
    if same d v
    then Ordering.eq
    else if ltb d.hi v.hi || (d.hi == v.hi && ltb d.lo v.lo)
    then Ordering.lt
    else Ordering.gt

-- Difficulty.Add: bits.Add64 on the low and then on the high words.
unfoldable pub add : Difficulty → Difficulty → Difficulty
add d v =
    let carry = (d.lo + v.lo) / 2 ^ 64 in
    record { lo = (d.lo + v.lo) % 2 ^ 64; hi = (d.hi + v.hi + carry) % 2 ^ 64 }

-- Difficulty.Mul64: the two words of the product of the low word, and the high one times `v` on top.
unfoldable pub mul64 : Difficulty → ℕ → Difficulty
mul64 d v =
    let product = d.lo * v in
    record { lo = product % 2 ^ 64; hi = (product / 2 ^ 64 + d.hi * v % 2 ^ 64) % 2 ^ 64 }

-- DifficultyFrom64
unfoldable pub from64 : ℕ → Difficulty
from64 v = record { lo = v; hi = 0 }

-- Difficulty.Target: 2 ^ 64 / d, rounded up.
unfoldable pub target : Uint128 → Difficulty → ℕ
target lib d =
    let one_at_top : Difficulty = record { lo = 0; hi = 1 } in
    let q = lib.div64 one_at_top d.lo in
    let rem = lib.rem64 one_at_top d.lo in
    if ltb 0 d.hi
    then 1
    else if leb d.lo 1
    then 2 ^ 64 - 1
    else if ltb 0 rem
    then (q.lo + 1) % 2 ^ 64
    else q.lo
