-- ===== src/Mempool/BlockReward.antt =====
-- What GetBlockReward of the mempool computes, on each of its branches.
use p2pool_observer.Prelude.{
  ℕ, true, some, ◌+◌, ◌-◌, ◌*◌, ◌/◌, ◌%◌, ◌^◌, ◌≤◌, ◌<◌, ◌≡◌, refl, arith, ap, ◌∙◌, false,
  Bool-cases, inl, inr, ◌⊎◌, if◌then◌else◌, leb, ltb, lt→ltb,
}
use p2pool_observer.Codec.{ok}
use p2pool_observer.Types.Uint128.{
  Uint128, IsU128, value, of_value, value-of_value, of_value-IsU128, low_word,
}
use p2pool_observer.Types.Difficulty.{from64}
use p2pool_observer.Mempool.{get_block_reward}

-- Below the median weight a block earns the base reward and the fees; up to twice the median the
-- base reward is scaled by 2 m - w and divided twice by m, rounded down each time; above that nothing is earned.
abbrev pub exact_reward : ℕ → ℕ → ℕ → ℕ → ℕ
exact_reward base m fees w =
    if leb w m then base + fees else if ltb (m * 2) w then 0 else base * (m * 2 - w) / m / m + fees

product_fits : (a b : ℕ) → a < 2 ^ 64 → b < 2 ^ 64 → a * b < 2 ^ 128
product_fits a b h k = grind arith

pub scaled_le : (base m d : ℕ) → 0 < m → d ≤ m → base * d / m / m ≤ base
scaled_le base m d p h = grind arith

scaled_le_first : (base m d : ℕ) → 0 < m → d ≤ m → base * d / m ≤ base
scaled_le_first base m d p h = grind arith

module _ (lib : Uint128) (base m d : ℕ) (hb : base < 2 ^ 64) (p : 0 < m) (hm : m < 2 ^ 64)
    (hd : d ≤ m) where
  base_value : value (from64 base) ≡ base
  unfolding value from64
  base_value = omega arith

  base_fits : IsU128 (from64 base)
  unfolding from64
  base_fits = omega arith

  pub mul64_base : lib.mul64 (from64 base) d ≡ some (of_value (base * d))
  mul64_base =
      let small : ltb (base * d) (2 ^ 128) ≡ true =
        lt→ltb _ _ (product_fits base d hb (omega arith)) in
      rw (lib.mul64_lem (from64 base) d base_fits (omega arith), base_value, small)

  div64_of_value : (n : ℕ) → n < 2 ^ 128 → lib.div64 (of_value n) m ≡ of_value (n / m)
  div64_of_value n h =
      rw (lib.div64_lem (of_value n) m (of_value-IsU128 n h) p hm, value-of_value n)

  pub div64_twice : (lib.div64 (lib.div64 (of_value (base * d)) m) m).lo ≡ base * d / m / m
  div64_twice =
      let first = div64_of_value (base * d) (product_fits base d hb (omega arith)) in
      let second = div64_of_value (base * d / m) (omega (arith, scaled_le_first base m d p hd)) in
      rw (first, second) (low_word _ (omega (arith, scaled_le base m d p hd)))

scaled_branch :
    (lib : Uint128) (base m fees w : ℕ)
    → m < 2 ^ 63
    → base + fees < 2 ^ 64
    → m < w
    → w ≤ m * 2
    → get_block_reward lib base m fees w ≡ ok (base * (m * 2 - w) / m / m + fees)
unfolding get_block_reward
scaled_branch lib base m fees w hm hb over under =
    rw
      (
        above,
        fits,
        excess,
        mul64_base lib base m (m * 2 - w) (omega arith) (omega arith) (omega arith) (omega arith),
        div64_twice lib base m (m * 2 - w) (omega arith) (omega arith) (omega arith) (omega arith),
      )
      (ap ok (omega (arith, scaled_le base m (m * 2 - w) (omega arith) (omega arith))))
  where
    above : leb w m ≡ false
    above = ground arith

    fits : ltb (m * 2 % 2 ^ 64) w ≡ false
    fits = ground arith

    excess : (m * 2 % 2 ^ 64 + 2 ^ 64 - w) % 2 ^ 64 ≡ m * 2 - w
    excess = omega arith

-- For a median below 2 ^ 63 and a base reward and fees whose sum is below 2 ^ 64: up to the median weight a
-- block earns the base reward and the fees; up to twice the median the base reward is scaled by
-- 2 m - w and divided twice by m, rounded down each time, and the fees are added; above that nothing
-- is earned. No branch panics, and none earns more than the base reward and the fees.
pub get_block_reward-exact :
    (lib : Uint128) (base m fees w : ℕ)
    → m < 2 ^ 63
    → base + fees < 2 ^ 64
    → (get_block_reward lib base m fees w ≡ ok (exact_reward base m fees w))
      × (exact_reward base m fees w ≤ base + fees)
unfolding get_block_reward
get_block_reward-exact lib base m fees w hm hb =
    (value_eq (Bool-cases (leb w m)) (Bool-cases (ltb (m * 2) w)), bound)
  where
    value_eq :
        (leb w m ≡ true) ⊎ (leb w m ≡ false)
        → (ltb (m * 2) w ≡ true) ⊎ (ltb (m * 2) w ≡ false)
        → get_block_reward lib base m fees w ≡ ok (exact_reward base m fees w)
    value_eq (inl low) c = rw (low, get_block_reward) (ap ok (omega arith))
    value_eq (inr high) (inl over) =
        let doubled : m * 2 % 2 ^ 64 ≡ m * 2 = omega arith in
        rw (high, over, get_block_reward) (rw (doubled, over) refl)
    value_eq (inr high) (inr under) =
        let scaled : ok (base * (m * 2 - w) / m / m + fees) ≡ ok (exact_reward base m fees w) =
          rw (high, under) refl in
        scaled_branch lib base m fees w hm hb (ground arith) (ground arith) ∙ scaled

    bound : exact_reward base m fees w ≤ base + fees
    bound = ground (arith, scaled_le base m (m * 2 - w))
