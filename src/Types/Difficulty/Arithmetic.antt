-- ===== src/Types/Difficulty/Arithmetic.antt =====
-- The operations of types/difficulty.go that work on the two words agree with the arithmetic of the
-- numbers modulo 2 ^ 128.
use Prim.Native.Nat.{compare}
use p2pool_observer.Prelude.{
  ℕ, ◌+◌, ◌*◌, ◌/◌, ◌%◌, ◌^◌, ◌≤◌, ◌<◌, ◌≡◌, arith, Bool-cases, inl, inr, ltb, if◌then◌else◌,
}
use p2pool_observer.Types.Uint128.{Difficulty, IsU128, Uint128, value, of_value}
use p2pool_observer.Types.Difficulty.{same, cmp, add, mul64, target}

-- Add is addition modulo 2 ^ 128, and its words fit 64 bits.
pub value-add :
    (d v : Difficulty) → (value (add d v) ≡ (value d + value v) % 2 ^ 128) × IsU128 (add d v)
unfolding value add
value-add d v = (omega arith, omega arith)

-- Mul64 is multiplication modulo 2 ^ 128, and its words fit 64 bits.
pub value-mul64 :
    (d : Difficulty) (v : ℕ) → (value (mul64 d v) ≡ value d * v % 2 ^ 128) × IsU128 (mul64 d v)
unfolding value mul64
value-mul64 d v = (omega arith, omega arith)

-- Cmp orders difficulties whose words fit 64 bits as the numbers that they stand for.
pub cmp-compare : (d v : Difficulty) → IsU128 d → IsU128 v → cmp d v ≡ compare (value d) (value v)
unfolding cmp value same
cmp-compare d v hd hv = ground arith

half_bound : (n : ℕ) → 1 < n → 2 ^ 64 / n ≤ 2 ^ 63
half_bound n h = grind arith

abbrev one_at_top : Difficulty
one_at_top = record { lo = 0; hi = 1 }

module _ (lib : Uint128) (d : Difficulty) (fits : IsU128 d) where
  target_words :
      1 < d.lo
      → d.hi ≡ 0
      → target lib d
        ≡ (if ltb 0 (2 ^ 64 % d.lo) then (2 ^ 64 / d.lo + 1) % 2 ^ 64 else 2 ^ 64 / d.lo % 2 ^ 64)
  unfolding target of_value value
  target_words h z =
      rw
        (
          lib.div64_lem one_at_top d.lo (omega arith) (omega arith) fits.lo_fits,
          lib.rem64_lem one_at_top d.lo (omega arith) (omega arith) fits.lo_fits,
        )
        (ground arith)

  target_rounds_up :
      1 < d.lo → d.hi ≡ 0 → (2 ^ 64 ≤ target lib d * d.lo) × (target lib d * d.lo < 2 ^ 64 + d.lo)
  target_rounds_up h z = elim (Bool-cases (ltb 0 (2 ^ 64 % d.lo))) [
    | inl up ↦
        let t : target lib d ≡ 2 ^ 64 / d.lo + 1 =
          ground (arith, target_words h z, half_bound d.lo h) in
        rw t (grind arith, grind arith)
    | inr even ↦
        let t : target lib d ≡ 2 ^ 64 / d.lo =
          ground (arith, target_words h z, half_bound d.lo h) in
        rw t (grind arith, grind arith)
  ]

  -- For a difficulty above 1 that fits 64 bits, Target is 2 ^ 64 / d rounded up: the least number
  -- whose product with the difficulty is at least 2 ^ 64.
  pub target_bounds :
      1 < value d
      → value d < 2 ^ 64
      → (2 ^ 64 ≤ target lib d * value d) × (target lib d * value d < 2 ^ 64 + value d)
  target_bounds h k =
      let e : value d ≡ d.lo = unfold value in omega arith in
      rw e (target_rounds_up (unfold value in omega arith) (unfold value in omega arith))
