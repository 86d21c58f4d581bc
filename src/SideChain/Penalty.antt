-- ===== src/SideChain/Penalty.antt =====
-- ApplyUnclePenalty of p2pool/sidechain/consensus.go: what an uncle gives to the share that includes it.
use p2pool_observer.Prelude.{ℕ, ◌+◌, ◌-◌, ◌*◌, ◌/◌, ◌%◌, ◌^◌, ◌≤◌, ◌<◌, ◌≡◌, refl, arith, ap, ◌∙◌}
use p2pool_observer.Types.Uint128.{
  Difficulty, Uint128, IsU128, value, of_value, value-of_value, of_value-IsU128, value_lt,
}
use p2pool_observer.Types.Difficulty.{mul64}
use p2pool_observer.Types.Difficulty.Arithmetic.{value-mul64}

-- ApplyUnclePenalty with the percentage `uncle_penalty`: the weight of the uncle and the penalty.
unfoldable pub apply_uncle_penalty : Uint128 → ℕ → Difficulty → Difficulty × Difficulty
apply_uncle_penalty lib uncle_penalty weight =
    let penalty = lib.div64 (mul64 weight uncle_penalty) 100 in
    (lib.sub_wrap weight penalty, penalty)

percent_le : (w p : ℕ) → p ≤ 100 → w * p / 100 ≤ w
percent_le w p h = grind arith

-- For a percentage up to 100 and a weight whose product with it fits 128 bits, the penalty is that
-- percentage of the weight, rounded down, and the two parts add up to the weight.
pub apply_uncle_penalty-parts :
    (lib : Uint128) (p : ℕ) (weight : Difficulty)
    → IsU128 weight
    → p ≤ 100
    → value weight * p < 2 ^ 128
    → (value (apply_uncle_penalty lib p weight).1 ≡ value weight * p / 100)
      × (value (apply_uncle_penalty lib p weight).0 + value (apply_uncle_penalty lib p weight).1
          ≡ value weight)
unfolding apply_uncle_penalty
apply_uncle_penalty-parts lib p weight v small fits = (
  ap value penalty_eq ∙ value-of_value n,
  omega (arith, ap value penalty_eq, value-of_value n, rest_eq, le),
)
  where
    n : ℕ
    n = value weight * p / 100

    le : n ≤ value weight
    le = percent_le (value weight) p small

    product : value (mul64 weight p) ≡ value weight * p
    product = omega (arith, (value-mul64 weight p).0)

    penalty_eq : lib.div64 (mul64 weight p) 100 ≡ of_value n
    penalty_eq =
        rw
          (
            lib.div64_lem (mul64 weight p) 100 (value-mul64 weight p).1 (omega arith) (omega arith),
            product,
          )
          refl

    bound : n < 2 ^ 128
    bound = omega (arith, le, value_lt weight v)

    wrapped : (value weight + 2 ^ 128 - n) % 2 ^ 128 ≡ value weight - n
    wrapped = omega (arith, le, value_lt weight v)

    rest_eq : value (lib.sub_wrap weight (lib.div64 (mul64 weight p) 100)) ≡ value weight - n
    rest_eq =
        rw
          (
            penalty_eq,
            lib.sub_wrap_lem weight (of_value n) v (of_value-IsU128 n bound),
            value-of_value n,
            wrapped,
          )
          (value-of_value (value weight - n))
