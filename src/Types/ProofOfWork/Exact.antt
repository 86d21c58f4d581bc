-- ===== src/Types/ProofOfWork/Exact.antt =====
-- What CheckPoW decides.
use Prim.Native.Nat.{compare}
use p2pool_observer.Prelude.{
  ℕ, ◌*◌, ◌/◌, ◌%◌, ◌^◌, ◌≤◌, ◌<◌, ◌≡◌, ◌↔◌, refl, ap, ◌∙◌, arith, inl, inr, true, List, Bool-cases,
}
use p2pool_observer.Codec.{le_value}
use p2pool_observer.Types.Uint128.{Difficulty, IsU128, value, of_value}
use p2pool_observer.Types.Difficulty.Arithmetic.{cmp-compare}
use p2pool_observer.Types.Hash.{bytes_eq, zero_hash}
use p2pool_observer.Types.Hash.Order.{bytes_eq→eq}
use p2pool_observer.Types.ProofOfWork.{pow_base, at_least, difficulty_from_pow, check_pow}

at_least-compare : (m n : ℕ) → (at_least (compare m n) ≡ true) ↔ (n ≤ m)
unfolding at_least
at_least-compare m n = ground arith

of_value-IsU128 : (n : ℕ) → n < 2 ^ 128 → IsU128 (of_value n) × (value (of_value n) ≡ n)
unfolding of_value value
of_value-IsU128 n h = (record { lo_fits = omega arith; hi_fits = omega arith }, omega arith)

-- The product of a quotient.
quotient_le : (b d p : ℕ) → 0 < p → (d ≤ b / p) ↔ (d * p ≤ b)
quotient_le b d p h = grind arith

quotient_small : (b p : ℕ) → 2 ^ 128 ≤ p → b < 2 ^ 256 → b / p < 2 ^ 128
quotient_small b p h k = ground (arith, quotient_le b (2 ^ 128) p (omega arith))

zero_hash-value : le_value zero_hash ≡ 0
unfolding le_value
zero_hash-value = refl

module _ (div : ℕ → ℕ → ℕ) (div_lem : (a b : ℕ) → 0 < b → b < 2 ^ 256 → div a b ≡ a / b) where
  -- Where uint256's Div is the division of numbers, CheckPoW of a hash that is at least 2 ^ 128 as a
  -- little endian number holds exactly where the hash times the difficulty is below 2 ^ 256.
  pub check_pow_iff :
      (d : Difficulty) (h : List ℕ)
      → IsU128 d
      → 2 ^ 128 ≤ le_value h
      → le_value h < 2 ^ 256
      → (check_pow div d h ≡ true) ↔ (value d * le_value h < 2 ^ 256)
  unfolding check_pow difficulty_from_pow
  check_pow_iff d h v high fits = elim (Bool-cases (bytes_eq h zero_hash)) [
    | inl zero_h ↦
        absurd
          (let e = ap le_value (bytes_eq→eq h zero_hash zero_h) ∙ zero_hash-value in omega arith)
    | inr other ↦
        let q = pow_base / le_value h in
        let small = quotient_small pow_base (le_value h) high (omega arith) in
        let whole : q % 2 ^ 128 ≡ q = omega (arith, small) in
        let (u, same) = of_value-IsU128 q small in
        rw
          (
            other,
            div_lem pow_base (le_value h) (omega arith) fits,
            whole,
            cmp-compare _ d u v,
            same,
          )
          (ground (
            arith,
            at_least-compare q (value d),
            quotient_le pow_base (value d) (le_value h) (omega arith),
          ))
  ]
