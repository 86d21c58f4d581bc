-- ===== src/Types/Uint128.antt =====
-- What types/difficulty.go and its users call of the package lukechampine.com/uint128, which the
-- repository does not hold: an interface with the package's documented behaviour.
use Prim.Native.Nat.{compare, Ordering}
use p2pool_observer.Prelude.{
  ℕ, ◌+◌, ◌-◌, ◌*◌, ◌/◌, ◌%◌, ◌^◌, ◌<◌, ◌≡◌, refl, arith, Bool, Option, none, some, ltb, leb, ◌==◌,
  if◌then◌else◌,
}

-- type Difficulty uint128.Uint128: the low and the high 64 bits.
pub record Difficulty : Type 0 where
  pub lo : ℕ
  pub hi : ℕ

pub record IsU128 (d : Difficulty) : Type 0 where
  pub lo_fits : d.lo < 2 ^ 64
  pub hi_fits : d.hi < 2 ^ 64

-- The number that a difficulty stands for.
unfoldable pub value : Difficulty → ℕ
value d = d.lo + 2 ^ 64 * d.hi

-- The difficulty that stands for a number below 2 ^ 128.
unfoldable pub of_value : ℕ → Difficulty
of_value n = record { lo = n % 2 ^ 64; hi = n / 2 ^ 64 }

-- `equals`, `equals64` and `cmp64` are Equals, Equals64 and Cmp64; -1, 0 and 1 are `lt`, `eq`, `gt`.
-- `sub_wrap`, `div`, `div64` and `quo_rem64` are SubWrap, Div, Div64 and QuoRem64; `sub` and `mul64`
-- are Sub and Mul64, which panic where the result does not fit (`none`).
-- A division by zero panics in Go; its callers here test for zero first.
pub record Uint128 : Type 0 where
  pub equals : Difficulty → Difficulty → Bool
  pub equals64 : Difficulty → ℕ → Bool
  pub cmp64 : Difficulty → ℕ → Ordering
  pub sub_wrap : Difficulty → Difficulty → Difficulty
  pub sub : Difficulty → Difficulty → Option Difficulty
  pub mul64 : Difficulty → ℕ → Option Difficulty
  pub div : Difficulty → Difficulty → Difficulty
  pub div64 : Difficulty → ℕ → Difficulty
  pub rem64 : Difficulty → ℕ → ℕ
  pub equals_lem : (u v : Difficulty) → IsU128 u → IsU128 v → equals u v ≡ (value u == value v)
  pub equals64_lem :
      (u : Difficulty) (v : ℕ) → IsU128 u → v < 2 ^ 64 → equals64 u v ≡ (value u == v)
  pub cmp64_lem : (u : Difficulty) (v : ℕ) → IsU128 u → v < 2 ^ 64 → cmp64 u v ≡ compare (value u) v
  pub sub_wrap_lem :
      (u v : Difficulty)
      → IsU128 u
      → IsU128 v
      → sub_wrap u v ≡ of_value ((value u + 2 ^ 128 - value v) % 2 ^ 128)
  pub sub_lem :
      (u v : Difficulty)
      → IsU128 u
      → IsU128 v
      → sub u v ≡ (if leb (value v) (value u) then some (of_value (value u - value v)) else none)
  pub mul64_lem :
      (u : Difficulty) (v : ℕ)
      → IsU128 u
      → v < 2 ^ 64
      → mul64 u v ≡ (if ltb (value u * v) (2 ^ 128) then some (of_value (value u * v)) else none)
  pub div_lem :
      (u v : Difficulty)
      → IsU128 u
      → IsU128 v
      → 0 < value v
      → div u v ≡ of_value (value u / value v)
  pub div64_lem :
      (u : Difficulty) (v : ℕ) → IsU128 u → 0 < v → v < 2 ^ 64 → div64 u v ≡ of_value (value u / v)
  pub rem64_lem : (u : Difficulty) (v : ℕ) → IsU128 u → 0 < v → v < 2 ^ 64 → rem64 u v ≡ value u % v

-- The interface can be met: by the arithmetic of the numbers themselves.
abbrev pub exact : Uint128
exact = record {
  equals = λ u v. value u == value v;
  equals64 = λ u v. value u == v;
  cmp64 = λ u v. compare (value u) v;
  sub_wrap = λ u v. of_value ((value u + 2 ^ 128 - value v) % 2 ^ 128);
  sub = λ u v. if leb (value v) (value u) then some (of_value (value u - value v)) else none;
  mul64 = λ u v. if ltb (value u * v) (2 ^ 128) then some (of_value (value u * v)) else none;
  div = λ u v. of_value (value u / value v);
  div64 = λ u v. of_value (value u / v);
  rem64 = λ u v. value u % v;
  equals_lem = λ u v hu hv. refl;
  equals64_lem = λ u v hu hv. refl;
  cmp64_lem = λ u v hu hv. refl;
  sub_wrap_lem = λ u v hu hv. refl;
  sub_lem = λ u v hu hv. refl;
  mul64_lem = λ u v hu hv. refl;
  div_lem = λ u v hu hv p. refl;
  div64_lem = λ u v hu p hv. refl;
  rem64_lem = λ u v hu p hv. refl;
}

pub value-of_value : (n : ℕ) → value (of_value n) ≡ n
unfolding value of_value
value-of_value n = omega arith

pub of_value-value : (d : Difficulty) → IsU128 d → of_value (value d) ≡ d
unfolding value of_value
of_value-value d h = ground arith

pub of_value-IsU128 : (n : ℕ) → n < 2 ^ 128 → IsU128 (of_value n)
unfolding of_value
of_value-IsU128 n h = omega arith

pub value_lt : (d : Difficulty) → IsU128 d → value d < 2 ^ 128
unfolding value
value_lt d h = omega arith

pub low_word : (n : ℕ) → n < 2 ^ 64 → (of_value n).lo ≡ n
unfolding of_value
low_word n h = omega arith
