-- ===== src/SideChain/NextDifficulty.antt =====
-- GetDifficultyForNextBlock and NextDifficulty of p2pool/sidechain/utils.go.
pub mod Minimum
use Prim.Native.Nat.{Ordering}
use p2pool_observer.Prelude.{
  ℕ, zero, suc, ◌+◌, ◌-◌, ◌*◌, ◌/◌, ◌%◌, ◌^◌, Bool, true, false, ◌&&◌, ◌||◌, Option, none, some,
  List, [], ◌∷◌, ◌++◌, ltb, leb, ◌==◌, if◌then◌else◌, length, get_elem?, map,
}
use p2pool_observer.Codec.{
  Result, ok, err, panic, stuck, missing_uncle, missing_parent, difficulty_wraps,
}
use p2pool_observer.Types.Uint128.{Difficulty, Uint128}
use p2pool_observer.Types.Difficulty.{zero_difficulty, max_difficulty, cmp, from64}
use p2pool_observer.Utils.NthElement.{then_result, nth_element}
use p2pool_observer.SideChain.PoolBlock.{PoolBlock}
use p2pool_observer.SideChain.Consensus.{Consensus}
use p2pool_observer.SideChain.Verdict.{is_lt}
use p2pool_observer.SideChain.Window.{above, iterator_get_parent, iterator_uncles}

pub record DifficultyData : Type 0 where
  pub cumulative_difficulty : Difficulty
  pub timestamp : ℕ

abbrev pub data_of : PoolBlock → DifficultyData
data_of b = record {
  cumulative_difficulty = b.side.cumulative_difficulty;
  timestamp = b.main.timestamp;
}

-- The least and the greatest cumulative difficulty with a timestamp between the bounds.
unfoldable pub extremes :
    ℕ → ℕ → Difficulty → Difficulty → List DifficultyData → Difficulty × Difficulty
extremes low high least greatest [] = (least, greatest)
extremes low high least greatest (d ∷ ds) =
    let least' = if above least d.cumulative_difficulty then d.cumulative_difficulty else least in
    let greatest' =
      if is_lt (cmp greatest d.cumulative_difficulty) then d.cumulative_difficulty else greatest in
    if leb low d.timestamp && leb d.timestamp high
    then extremes low high least' greatest' ds
    else extremes low high least greatest ds

-- `s[i]`
unfoldable pub element : List ℕ → ℕ → Result ℕ
element s i = elim (get_elem? s i) [ none ↦ panic | some v ↦ ok v ]

-- The last section, whose panics become an error; a division by zero is one of them.
unfoldable pub difficulty_over :
    Uint128 → Consensus → ℕ → Difficulty × Difficulty → Result Difficulty
difficulty_over lib c delta_timestamp bounds =
    if delta_timestamp == 0 then err difficulty_wraps else elim (lib.sub bounds.1 bounds.0) [
      | none ↦ err difficulty_wraps
      | some delta_difficulty ↦ elim (lib.mul64 delta_difficulty c.target_block_time) [
        | none ↦ err difficulty_wraps
        | some product ↦
            let current = lib.div64 product delta_timestamp in
            if is_lt (lib.cmp64 current c.minimum_difficulty)
            then ok (from64 c.minimum_difficulty)
            else ok current
      ]
    ]

unfoldable pub delta_of : ℕ → ℕ → ℕ → ℕ → ℕ
delta_of low_index upper_index low high =
    let delta_index = if ltb low_index upper_index then upper_index - low_index else 1 in
    if ltb ((low + delta_index) % 2 ^ 64) high then (high + 2 ^ 64 - low) % 2 ^ 64 else delta_index

-- NextDifficulty; the selection leaves its timestamps in another order.
unfoldable pub next_difficulty :
    Uint128 → Consensus → List ℕ → List DifficultyData → Result Difficulty
next_difficulty lib c timestamps entries =
    let cut_size = (length timestamps + 9) / 10 in
    let low_index = cut_size - 1 in
    let upper_index = length timestamps - cut_size in
    then_result (nth_element ltb timestamps low_index) (λ ts1.
      then_result (element ts1 low_index) (λ low.
        then_result (nth_element ltb ts1 upper_index) (λ ts2.
          then_result (element ts2 upper_index) (λ high.
            difficulty_over lib c (delta_of low_index upper_index low high)
              (extremes low high max_difficulty zero_difficulty entries)))))

module _ (heap : ℕ → PoolBlock) (find : List ℕ → Option PoolBlock) (lib : Uint128)
    (c : Consensus) where
  -- The function that GetDifficultyForNextBlock hands to iteratorUncles.
  unfoldable pub add_uncle_data : ℕ → PoolBlock → List DifficultyData → List DifficultyData
  add_uncle_data tip_height uncle entries =
      if leb c.chain_window_size ((tip_height + 2 ^ 64 - uncle.side.height) % 2 ^ 64)
      then entries
      else entries ++ (data_of uncle ∷ [])

  -- The loop of GetDifficultyForNextBlock, with the depth and the data so far; the timestamps are those
  -- of the data.
  unfoldable pub data_loop :
      ℕ → ℕ → PoolBlock → ℕ → List DifficultyData → Result (List DifficultyData)
  data_loop zero tip_height cur depth entries = stuck
  data_loop (suc fuel) tip_height cur depth entries =
      elim (iterator_uncles heap find (add_uncle_data tip_height) cur
        (entries ++ (data_of cur ∷ []))) [
          | none ↦ err missing_uncle
          | some entries' ↦ elim (leb c.chain_window_size (depth + 1) || cur.side.height == 0) [
            | true ↦ ok entries'
            | false ↦ elim (iterator_get_parent heap find cur) [
              | none ↦ err missing_parent
              | some parent ↦ data_loop fuel tip_height parent (depth + 1) entries'
            ]
          ]
        ]

  -- GetDifficultyForNextBlock: a missing block is its first error, and a wrap in NextDifficulty its second.
  unfoldable pub get_difficulty_for_next_block : PoolBlock → Result Difficulty
  get_difficulty_for_next_block tip =
      then_result (data_loop (suc c.chain_window_size) tip.side.height tip 0 [])
        (λ entries. next_difficulty lib c (map (λ d. d.timestamp) entries) entries)
