-- ===== src/SideChain/Reward/Exact.antt =====
-- SplitReward hands out the whole reward, in proportion to the weights.
use p2pool_observer.Prelude.{
  ℕ, ◌+◌, ◌-◌, ◌*◌, ◌/◌, ◌%◌, ◌^◌, ◌≤◌, ◌<◌, ◌≡◌, refl, sym, ap, ap₂, ==_refl, false, ◌∙◌, arith,
  some, List, [], ◌∷◌, ◌==◌, All, sum,
}
use native.Mathlib.Nat.{le-div_iff_mul-le, div-lt_iff_lt-mul, lt-div-mul-add, div-mul-le_self}
use p2pool_observer.Types.Uint128.{Difficulty, Uint128, IsU128, value, value_lt, low_word}
use p2pool_observer.Types.Difficulty.{zero_difficulty, add, mul64}
use p2pool_observer.Types.Difficulty.Arithmetic.{value-add, value-mul64}
use p2pool_observer.SideChain.Share.{Share}
use p2pool_observer.SideChain.Reward.{total_weight, given_total, split_loop, split_reward}

-- The sum of the weights as a number.
unfoldable pub weight_sum : List Share → ℕ
weight_sum [] = 0
weight_sum (s ∷ ss) = value s.weight + weight_sum ss

abbrev pub AllFit : List Share → Type 0
AllFit = All (λ s. IsU128 s.weight)

-- What each share earns beyond those before it, whose weights sum to `before`.
unfoldable pub exact_rewards : ℕ → ℕ → ℕ → List Share → List ℕ
exact_rewards reward total before [] = []
exact_rewards reward total before (s ∷ ss) =
    let after = before + value s.weight in
    (after * reward / total - before * reward / total) ∷ exact_rewards reward total after ss

portion_le : (a r w : ℕ) → a ≤ w → 0 < w → a * r / w ≤ r
portion_le a r w h p = grind arith

portion_mono : (a b r w : ℕ) → a ≤ b → a * r / w ≤ b * r / w
portion_mono a b r w h = grind arith

portion_all : (r w : ℕ) → 0 < w → w * r / w ≡ r
portion_all r w p = grind arith

quotient_sum :
    (x y w : ℕ) → 0 < w → (x / w + y / w ≤ (x + y) / w) × ((x + y) / w ≤ x / w + y / w + 1)
quotient_sum x y w p =
    let below : (x + y) / w < x / w + y / w + 2 =
      (div-lt_iff_lt-mul p).1 (omega (arith, lt-div-mul-add {a = x} p, lt-div-mul-add {a = y} p)) in
    (
      (le-div_iff_mul-le p).1 (omega (arith, div-mul-le_self x w, div-mul-le_self y w)),
      omega (arith, below),
    )

product_mono : (a b r : ℕ) → a ≤ b → a * r ≤ b * r
product_mono a b r h = grind arith

total_weight-sum :
    (d : Difficulty) (ss : List Share)
    → IsU128 d
    → AllFit ss
    → value d + weight_sum ss < 2 ^ 128
    → (value (total_weight d ss) ≡ value d + weight_sum ss) × IsU128 (total_weight d ss)
unfolding total_weight weight_sum
total_weight-sum d [] v vs h = (omega arith, v)
total_weight-sum d (s ∷ ss) v (f, fs) h =
    let (e, i) = value-add d s.weight in
    let (e', i') = total_weight-sum (add d s.weight) ss i fs (omega (arith, e)) in
    (omega (arith, e, e'), i')

exact_rewards-bounded :
    (r w before : ℕ) (ss : List Share)
    → 0 < w
    → before + weight_sum ss ≡ w
    → before * r / w + sum (exact_rewards r w before ss) ≡ r
unfolding exact_rewards weight_sum
exact_rewards-bounded r w before [] p e =
    let whole : before ≡ w = omega arith in rw whole (omega (arith, portion_all r w p))
exact_rewards-bounded r w before (s ∷ ss) p e = omega (
  arith,
  exact_rewards-bounded r w (before + value s.weight) ss p (omega arith),
  portion_mono before (before + value s.weight) r w (omega arith),
)

given_total-sum :
    (given : ℕ) (rs : List ℕ) → given + sum rs < 2 ^ 64 → given_total given rs ≡ given + sum rs
unfolding given_total
given_total-sum given [] h = omega arith
given_total-sum given (r ∷ rs) h =
    let e : (given + r) % 2 ^ 64 ≡ given + r = omega arith in
    rw e (omega (arith, given_total-sum (given + r) rs (omega arith)))

module _ (lib : Uint128) (r : ℕ) (total : Difficulty) (small : r < 2 ^ 64) (fits : IsU128 total)
    (some_weight : 0 < value total) (no_wrap : value total * r < 2 ^ 128) where
  next_value_lem :
      (w : Difficulty)
      → IsU128 w
      → value w ≤ value total
      → (lib.div (mul64 w r) total).lo ≡ value w * r / value total
  next_value_lem w v h =
      let (e, i) = value-mul64 w r in
      let below : value w * r < 2 ^ 128 = omega (arith, product_mono (value w) (value total) r h) in
      let product : value (mul64 w r) ≡ value w * r = omega (arith, e) in
      let le : value w * r / value total ≤ r = portion_le (value w) r (value total) h some_weight in
      rw (lib.div_lem (mul64 w r) total i fits some_weight, product)
        (low_word _ (omega (arith, le)))

  split_loop-exact :
      (w : Difficulty) (given : ℕ) (ss : List Share)
      → IsU128 w
      → AllFit ss
      → value w + weight_sum ss ≡ value total
      → given ≡ value w * r / value total
      → split_loop lib r total w given ss ≡ exact_rewards r (value total) (value w) ss
  unfolding split_loop exact_rewards weight_sum
  split_loop-exact w given [] v vs e g = refl
  split_loop-exact w given (s ∷ ss) v (f, fs) e g =
      let (sum_eq, i) = value-add w s.weight in
      let bound : value total < 2 ^ 128 = value_lt total fits in
      let after : value (add w s.weight) ≡ value w + value s.weight = omega (arith, sum_eq) in
      let next = next_value_lem (add w s.weight) i (omega (arith, after)) in
      let le : (value w + value s.weight) * r / value total ≤ r =
        portion_le (value w + value s.weight) r (value total) (omega arith) some_weight in
      let mono = portion_mono (value w) (value w + value s.weight) r (value total) (omega arith) in
      let rest =
        split_loop-exact (add w s.weight) ((value w + value s.weight) * r / value total) ss i fs
          (omega (arith, after)) (ap (λ n. n * r / value total) (sym after)) in
      rw (next, after, g)
        (ap₂ ◌∷◌ (omega (arith, le, mono))
          (rest ∙ ap (λ n. exact_rewards r (value total) n ss) after))

-- For a reward of 64 bits and weights of 128 bits, whose sum is not zero and whose sum times the
-- reward fits 128 bits, SplitReward succeeds: it returns the differences between the successive
-- prefix weights' proportions of the reward, each rounded down, and they sum to the reward.
pub split_reward-exact :
    (lib : Uint128) (r : ℕ) (ss : List Share)
    → AllFit ss
    → r < 2 ^ 64
    → 0 < weight_sum ss
    → weight_sum ss < 2 ^ 128
    → weight_sum ss * r < 2 ^ 128
    → (split_reward lib r ss ≡ some (exact_rewards r (weight_sum ss) 0 ss))
      × (sum (exact_rewards r (weight_sum ss) 0 ss) ≡ r)
unfolding split_reward
split_reward-exact lib r ss v small p fits no_wrap = (
  rw (
    lib.equals64_lem total 0 total_fits (omega arith),
    total_value,
    not_zero,
    loop,
    sums,
    ==_refl r,
  ),
  whole,
)
  where
    total : Difficulty
    total = total_weight zero_difficulty ss

    zero_value : value zero_difficulty ≡ 0
    zero_value = unfold value in refl

    total_value : value total ≡ weight_sum ss
    total_value = omega (
      arith,
      zero_value,
      (total_weight-sum zero_difficulty ss (omega arith) v (omega (arith, zero_value))).0,
    )

    total_fits : IsU128 total
    total_fits = (total_weight-sum zero_difficulty ss (omega arith) v (omega (arith, zero_value))).1

    not_zero : (weight_sum ss == 0) ≡ false
    not_zero = ground arith

    zero_portion : (w : ℕ) → 0 ≡ 0 * r / w
    zero_portion w = grind arith

    loop : split_loop lib r total zero_difficulty 0 ss ≡ exact_rewards r (weight_sum ss) 0 ss
    loop =
        split_loop-exact lib r total small total_fits (rw total_value p) (rw total_value no_wrap)
          zero_difficulty 0 ss (omega arith) v (omega (arith, zero_value, total_value))
          (rw zero_value (zero_portion (value total)))
        ∙ ap₂ (λ w z. exact_rewards r w z ss) total_value zero_value

    whole : sum (exact_rewards r (weight_sum ss) 0 ss) ≡ r
    whole = omega (
      arith,
      zero_portion (weight_sum ss),
      exact_rewards-bounded r (weight_sum ss) 0 ss p (omega arith),
    )

    sums : given_total 0 (exact_rewards r (weight_sum ss) 0 ss) ≡ r
    sums =
        given_total-sum 0 (exact_rewards r (weight_sum ss) 0 ss) (omega (arith, whole))
        ∙ omega (arith, whole)

-- As many rewards as shares, each of them the floor of the share's exact proportion or one above it.
abbrev pub Fair : ℕ → ℕ → List Share → List ℕ → Type 0
Fair r w [] [] = Unit {0}
Fair r w [] (q ∷ rs) = ⊥
Fair r w (s ∷ ss) [] = ⊥
Fair r w (s ∷ ss) (q ∷ rs) =
    (value s.weight * r / w ≤ q) × (q ≤ value s.weight * r / w + 1) × Fair r w ss rs

exact_rewards-Fair :
    (r w before : ℕ) (ss : List Share) → 0 < w → Fair r w ss (exact_rewards r w before ss)
unfolding exact_rewards
exact_rewards-Fair r w before [] p = tt
exact_rewards-Fair r w before (s ∷ ss) p = (
  lower before (value s.weight),
  upper before (value s.weight),
  exact_rewards-Fair r w (before + value s.weight) ss p,
)
  where
    distributes : (a v : ℕ) → (a + v) * r ≡ a * r + v * r
    distributes a v = omega arith

    lower : (a v : ℕ) → v * r / w ≤ (a + v) * r / w - a * r / w
    lower a v = rw distributes (omega (arith, quotient_sum (a * r) (v * r) w p))

    upper : (a v : ℕ) → (a + v) * r / w - a * r / w ≤ v * r / w + 1
    upper a v = rw distributes (omega (arith, quotient_sum (a * r) (v * r) w p))

-- For a reward of 64 bits and weights of 128 bits, whose sum is not zero and whose sum times the
-- reward fits 128 bits, the rewards that SplitReward returns are one for each share, in order, and
-- each is the share's proportion of the reward by weight, rounded down, or one above that.
pub split_reward-Fair :
    (lib : Uint128) (r : ℕ) (ss : List Share)
    → AllFit ss
    → r < 2 ^ 64
    → 0 < weight_sum ss
    → weight_sum ss < 2 ^ 128
    → weight_sum ss * r < 2 ^ 128
    → (rs : List ℕ) × (split_reward lib r ss ≡ some rs) × Fair r (weight_sum ss) ss rs
split_reward-Fair lib r ss v small p fits no_wrap = (
  exact_rewards r (weight_sum ss) 0 ss,
  (split_reward-exact lib r ss v small p fits no_wrap).0,
  exact_rewards-Fair r (weight_sum ss) 0 ss p,
)
