-- ===== src/Block/Emission.antt =====
-- monero/block/reward.go: what a block may emit.
use p2pool_observer.Prelude.{
  ℕ, ◌+◌, ◌-◌, ◌*◌, ◌/◌, ◌%◌, ◌^◌, ◌≤◌, ◌<◌, ◌≡◌, refl, ap, arith, true, false, none, some, ltb,
  leb, if◌then◌else◌, Bool-cases, inl, inr, ◌⊎◌,
}
use p2pool_observer.Codec.{Result, ok, panic}
use p2pool_observer.Types.Uint128.{Uint128}
use p2pool_observer.Types.Difficulty.{from64}
use p2pool_observer.Mempool.BlockReward.{exact_reward, mul64_base, div64_twice}

abbrev pub tail_emission_reward : ℕ
tail_emission_reward = 600000000000

-- GetBaseReward; `^n` is 2 ^ 64 - 1 - n.
unfoldable pub get_base_reward : ℕ → ℕ
get_base_reward already_generated =
    let result = (2 ^ 64 - 1 - already_generated) / 2 ^ 19 in
    if ltb result tail_emission_reward then tail_emission_reward else result

-- The base reward in GetBlockReward: 2 minutes for each block from version 2 on, 1 before.
unfoldable pub scheduled_reward : ℕ → ℕ → ℕ
scheduled_reward already_generated version =
    let early = (2 ^ 64 - 1 - already_generated) / 2 ^ 20 in
    let late = (2 ^ 64 - 1 - already_generated) / 2 ^ 19 in
    if ltb version 2
    then (if ltb early 300000000000 then 300000000000 else early)
    else if ltb late (300000000000 * 2)
    then 300000000000 * 2
    else late

unfoldable pub full_reward_zone : ℕ → ℕ
full_reward_zone version = if ltb version 2 then 20000 else if ltb version 5 then 60000 else 300000

-- GetBlockReward of reward.go; `panic` is Mul64's panic on overflow.
unfoldable pub emitted_reward : Uint128 → ℕ → ℕ → ℕ → ℕ → Result ℕ
emitted_reward lib median_weight current_block_weight already_generated_coins version =
    let base_reward = scheduled_reward already_generated_coins version in
    let median =
      if ltb median_weight (full_reward_zone version)
      then full_reward_zone version
      else median_weight in
    let doubled = 2 * median % 2 ^ 64 in
    if leb current_block_weight median
    then ok base_reward
    else if ltb doubled current_block_weight
    then ok 0
    else elim (lib.mul64 (from64 base_reward)
        ((doubled + 2 ^ 64 - current_block_weight) % 2 ^ 64)) [
          | none ↦ panic
          | some product ↦ ok (lib.div64 (lib.div64 product median) median).lo
        ]

-- From version 2 on, the base reward of GetBlockReward is GetBaseReward: at least the tail emission,
-- and at most 2 ^ 45.
get_base_reward-scheduled_reward :
    (already_generated version : ℕ)
    → 2 ≤ version
    → (scheduled_reward already_generated version ≡ get_base_reward already_generated)
      × (tail_emission_reward ≤ get_base_reward already_generated)
      × (get_base_reward already_generated ≤ 2 ^ 45)
unfolding scheduled_reward get_base_reward
get_base_reward-scheduled_reward already_generated version h = ground arith

scheduled_fits : (c v : ℕ) → scheduled_reward c v < 2 ^ 64
unfolding scheduled_reward
scheduled_fits c v = ground arith

abbrev pub effective_median : ℕ → ℕ → ℕ
effective_median median_weight version =
    if ltb median_weight (full_reward_zone version) then full_reward_zone version else median_weight

effective_median_bounds :
    (m v : ℕ) → m < 2 ^ 63 → (0 < effective_median m v) × (effective_median m v < 2 ^ 63)
unfolding full_reward_zone
effective_median_bounds m v h = ground arith

-- GetBlockReward of reward.go is the reward of the mempool's GetBlockReward without fees: it is scaled
-- above the median weight, which is at least the full reward zone of the version. It never panics,
-- for medians below 2 ^ 63.
pub emitted_reward-exact :
    (lib : Uint128) (median_weight w c version : ℕ)
    → median_weight < 2 ^ 63
    → emitted_reward lib median_weight w c version
      ≡ ok (exact_reward (scheduled_reward c version) (effective_median median_weight version) 0 w)
unfolding emitted_reward
emitted_reward-exact lib median_weight w c version h =
    split (Bool-cases (leb w m)) (Bool-cases (ltb (m * 2) w))
  where
    m : ℕ
    m = effective_median median_weight version

    base : ℕ
    base = scheduled_reward c version

    positive : 0 < m
    positive = (effective_median_bounds median_weight version h).0

    small : m < 2 ^ 63
    small = (effective_median_bounds median_weight version h).1

    doubled : 2 * m % 2 ^ 64 ≡ m * 2
    doubled = omega (arith, small)

    split :
        (leb w m ≡ true) ⊎ (leb w m ≡ false)
        → (ltb (m * 2) w ≡ true) ⊎ (ltb (m * 2) w ≡ false)
        → emitted_reward lib median_weight w c version ≡ ok (exact_reward base m 0 w)
    split (inl low) k = rw (low, emitted_reward) (ap ok (omega arith))
    split (inr high) (inl over) = rw (high, emitted_reward, doubled, over) refl
    split (inr high) (inr under) =
        let over : m < w = ground arith in
        let within : w ≤ m * 2 = ground arith in
        let excess : (m * 2 + 2 ^ 64 - w) % 2 ^ 64 ≡ m * 2 - w =
          omega (arith, small, over, within) in
        rw
          (
            high,
            emitted_reward,
            doubled,
            under,
            excess,
            mul64_base lib base m (m * 2 - w) (scheduled_fits c version) positive
                (omega (arith, small)) (omega (arith, over)),
            div64_twice lib base m (m * 2 - w) (scheduled_fits c version) positive
                (omega (arith, small)) (omega (arith, over)),
          )
          (ap ok (omega arith))
