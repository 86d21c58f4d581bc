-- ===== src/SideChain/Verify.antt =====
-- SideChain.verifyBlock of p2pool/sidechain/sidechain.go: whether a share may stand on its parent.
pub mod Accepts
pub mod Ends
pub mod Pays
use Prim.Native.Nat.{Ordering}
use p2pool_observer.Prelude.{
  ℕ, zero, suc, ◌+◌, ◌-◌, ◌*◌, ◌%◌, ◌^◌, Bool, true, false, not, ◌&&◌, ◌||◌, Option, none, some,
  List, [], ◌∷◌, ◌++◌, ltb, leb, ◌==◌, min, if◌then◌else◌, length, map,
}
use p2pool_observer.Types.Uint128.{Difficulty, Uint128}
use p2pool_observer.Types.Difficulty.{zero_difficulty, same, add}
use p2pool_observer.Types.Hash.{bytes_eq, zero_hash, compare_hash}
use p2pool_observer.Transaction.Output.{Output, tx_out_to_tagged_key}
use p2pool_observer.SideChain.SideData.{share_version_v1}
use p2pool_observer.SideChain.Share.{Share, PackedAddress}
use p2pool_observer.SideChain.Reward.{given_total, split_reward}
use p2pool_observer.SideChain.PoolBlock.{PoolBlock, IterationCache, contains_hash}
use p2pool_observer.SideChain.Consensus.{
  Consensus, uncle_block_depth, side_template_id, calculate_transaction_private_key_seed,
}
use p2pool_observer.SideChain.Verdict.{
  Reason, Failure, looping, unverifiable, invalid, Verdict, verified, fails, NextDifficulty,
  difficulty_of, not_yet, never, is_eq, is_lt, ascending_from, ascending, Check, goes_on, ends,
  genesis_parameters, no_parent_id, parent_missing, parent_not_verified, parent_invalid, wrong_seed,
  wrong_height, uncle_order, empty_uncle, uncle_mined, uncle_missing, uncle_not_verified,
  uncle_invalid, uncle_height, different_chain, wrong_cumulative_difficulty, no_difficulty,
  difficulty_fails, wrong_difficulty, no_shares, wrong_output_count, wrong_total_reward,
  wrong_output,
}
use p2pool_observer.SideChain.Uncles.{
  get_parent, walk_back, same_chain, check_ancestor, check_uncle, check_uncles,
}

-- The genesis block's test.
unfoldable pub verify_genesis : Uint128 → Consensus → PoolBlock → Verdict
verify_genesis lib c b =
    if not (bytes_eq b.side.parent zero_hash)
      || not (length b.side.uncles == 0)
      || not (is_eq (lib.cmp64 b.side.difficulty c.minimum_difficulty))
      || not (is_eq (lib.cmp64 b.side.cumulative_difficulty c.minimum_difficulty))
      || (ltb share_version_v1 b.cached_share_version
          && not (bytes_eq b.side.coinbase_private_key_seed c.id))
    then fails (invalid genesis_parameters)
    else verified

module _ (keccak : List ℕ → List ℕ) (c : Consensus) (heap : ℕ → PoolBlock)
    (find : List ℕ → Option ℕ) where
  -- The blocks that are mined on the way back, and their uncles.
  unfoldable pub mined_blocks : ℕ → Option ℕ → List (List ℕ)
  mined_blocks zero tmp = []
  mined_blocks (suc n) none = []
  mined_blocks (suc n) (some p) =
      (side_template_id keccak c (heap p) ∷ (heap p).side.uncles)
      ++ mined_blocks n (get_parent heap find (heap p))

-- The seed that the parent demands.
unfoldable pub expected_seed : (List ℕ → List ℕ) → PoolBlock → PoolBlock → List ℕ
expected_seed keccak b parent =
    if bytes_eq parent.main.previous_id b.main.previous_id
    then parent.side.coinbase_private_key_seed
    else calculate_transaction_private_key_seed keccak parent

module _ (keccak : List ℕ → List ℕ) (lib : Uint128) (c : Consensus) (heap : ℕ → PoolBlock)
    (find : List ℕ → Option ℕ) where
  -- What the chain keeps beside its blocks and the last checks use: `tip` and `current_difficulty` are
  -- chainTip and currentDifficulty, `get_difficulty` and `get_shares` the methods on the chain's
  -- blocks, and `ephemeral_public_key` the cache's function of an address, the block's private key
  -- and an index.
  module _ (tip : Option ℕ) (current_difficulty : Difficulty) (get_difficulty : ℕ → NextDifficulty)
      (get_shares : PoolBlock → List Share)
      (ephemeral_public_key : PackedAddress → List ℕ → ℕ → List ℕ × ℕ) where
    -- The work on the outputs from an index on, which is done in parallel: each has its share's reward
    -- and key.
    unfoldable pub outputs_match : PoolBlock → ℕ → List Share → List ℕ → List Output → Bool
    outputs_match b i [] rewards outputs = true
    outputs_match b i (s ∷ ss) [] outputs = true
    outputs_match b i (s ∷ ss) (r ∷ rs) [] = true
    outputs_match b i (s ∷ ss) (r ∷ rs) (o ∷ os) =
        let key = ephemeral_public_key s.address b.side.coinbase_private_key i in
        r == o.reward
        && bytes_eq key.0 o.ephemeral_public_key
        && not (o.output_type == tx_out_to_tagged_key && not (key.1 == o.view_tag))
        && outputs_match b (i + 1) ss rs os

    unfoldable pub verify_payout : PoolBlock → Verdict
    verify_payout b =
        let shares = get_shares b in
        let outputs = b.main.coinbase.outputs in
        let total_reward = given_total 0 (map (λ o. o.reward) outputs) in
        if length shares == 0
        then fails (invalid no_shares)
        else if not (length shares == length outputs)
        then fails (invalid wrong_output_count)
        else if not (total_reward == b.main.coinbase.total_reward)
        then fails (invalid wrong_total_reward)
        else elim (split_reward lib total_reward shares) [
          | none ↦ fails (invalid wrong_output_count)
          | some rewards ↦
              if not (length rewards == length outputs)
              then fails (invalid wrong_output_count)
              else if outputs_match b 0 shares rewards outputs
              then verified
              else fails (invalid wrong_output)
        ]

    unfoldable pub is_tip : ℕ → Bool
    is_tip parent = elim tip [ none ↦ false | some t ↦ t == parent ]

    unfoldable pub verify_difficulty : PoolBlock → ℕ → Verdict
    verify_difficulty b parent =
        if is_tip parent
        then (if same current_difficulty b.side.difficulty
            then verify_payout b
            else fails (invalid wrong_difficulty))
        else elim (get_difficulty parent) [
          | not_yet ↦ fails (unverifiable difficulty_fails)
          | never ↦ fails (invalid difficulty_fails)
          | difficulty_of d ↦
              if same d zero_difficulty
              then fails (invalid no_difficulty)
              else if same d b.side.difficulty
              then verify_payout b
              else fails (invalid wrong_difficulty)
        ]

    -- From the sum of the difficulties on.
    unfoldable pub verify_sum : PoolBlock → ℕ → Check → Verdict
    verify_sum b parent (ends failure) = fails failure
    verify_sum b parent (goes_on expected) =
        if not (lib.equals b.side.cumulative_difficulty expected)
        then fails (invalid wrong_cumulative_difficulty)
        else if leb c.chain_window_size b.depth
        then verified
        else verify_difficulty b parent

    -- With the parent at hand.
    unfoldable pub verify_on : PoolBlock → ℕ → Verdict
    verify_on b p =
        let parent = heap p in
        if not parent.verified
        then fails (unverifiable parent_not_verified)
        else if parent.invalid
        then fails (invalid parent_invalid)
        else if ltb share_version_v1 b.cached_share_version
            && not (bytes_eq b.side.coinbase_private_key_seed (expected_seed keccak b parent))
        then fails (invalid wrong_seed)
        else if not ((parent.side.height + 1) % 2 ^ 64 == b.side.height)
        then fails (invalid wrong_height)
        else if not (ascending b.side.uncles)
        then fails (invalid uncle_order)
        else verify_sum b p (
            check_uncles heap find b p
              (mined_blocks keccak c heap find
                (min uncle_block_depth ((b.side.height + 1) % 2 ^ 64)) (some p))
              (add parent.side.cumulative_difficulty b.side.difficulty) b.side.uncles)

    -- SideChain.verifyBlock
    unfoldable pub verify_block : PoolBlock → Verdict
    verify_block b =
        if b.side.height == 0
        then verify_genesis lib c b
        else if ltb (((c.chain_window_size + 2 ^ 64 - 1) % 2 ^ 64 * 2 + uncle_block_depth) % 2 ^ 64)
            b.depth
        then verified
        else if bytes_eq b.side.parent zero_hash
        then fails (invalid no_parent_id)
        else elim (get_parent heap find b) [
          | none ↦ fails (unverifiable parent_missing)
          | some p ↦ verify_on b p
        ]
