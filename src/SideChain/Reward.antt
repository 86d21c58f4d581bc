-- ===== src/SideChain/Reward.antt =====
-- SplitReward of p2pool/sidechain/utils.go: a block reward shared out by weight.
pub mod Exact
use p2pool_observer.Prelude.{
  ℕ, ◌+◌, ◌-◌, ◌%◌, ◌^◌, Bool, Option, none, some, List, [], ◌∷◌, ◌==◌, if◌then◌else◌,
}
use p2pool_observer.Types.Uint128.{Difficulty, Uint128}
use p2pool_observer.Types.Difficulty.{zero_difficulty, add, mul64}
use p2pool_observer.SideChain.Share.{Share}

-- The first loop, from the weight so far.
unfoldable pub total_weight : Difficulty → List Share → Difficulty
total_weight total [] = total
total_weight total (s ∷ ss) = total_weight (add total s.weight) ss

-- The last loop: the sum of the rewards, which can wrap.
unfoldable pub given_total : ℕ → List ℕ → ℕ
given_total given [] = given
given_total given (r ∷ rs) = given_total ((given + r) % 2 ^ 64) rs

module _ (lib : Uint128) where
  -- The loop over the shares, with the weight `w` and the reward `given` so far.
  unfoldable pub split_loop : ℕ → Difficulty → Difficulty → ℕ → List Share → List ℕ
  split_loop reward total w given [] = []
  split_loop reward total w given (s ∷ ss) =
      let w' = add w s.weight in
      let next_value = lib.div (mul64 w' reward) total in
      (next_value.lo + 2 ^ 64 - given) % 2 ^ 64 ∷ split_loop reward total w' next_value.lo ss

  -- SplitReward; `none` is the nil that it returns on failure.
  unfoldable pub split_reward : ℕ → List Share → Option (List ℕ)
  split_reward reward shares =
      let total = total_weight zero_difficulty shares in
      let rewards = split_loop reward total zero_difficulty 0 shares in
      if lib.equals64 total 0
      then none
      else if given_total 0 rewards == reward
      then some rewards
      else none
