-- ===== src/SideChain/Chain.antt =====
-- The methods of SideChain of p2pool/sidechain/sidechain.go that the state's operations call, on the
-- state: getDifficulty, getShares, isLongerChain and verifyBlock.
pub mod Lawful
pub mod Answers
pub mod Ends
pub mod Backed
use Prim.Native.Nat.{Ordering}
use p2pool_observer.Prelude.{ℕ, Bool, Option, none, some, List, []}
use p2pool_observer.Codec.{
  Error, Result, ok, err, panic, stuck, missing_uncle, missing_parent, difficulty_wraps,
}
use p2pool_observer.Types.Uint128.{Difficulty, Uint128}
use p2pool_observer.SideChain.Share.{Share, PackedAddress}
use p2pool_observer.SideChain.Shares.{get_shares}
use p2pool_observer.SideChain.PoolBlock.{PoolBlock}
use p2pool_observer.SideChain.Consensus.{Consensus, side_template_id}
use p2pool_observer.SideChain.Verdict.{Verdict, NextDifficulty, difficulty_of, not_yet, never}
use p2pool_observer.SideChain.Verify.{verify_block}
use p2pool_observer.SideChain.Longer.{is_longer_chain, block_of}
use p2pool_observer.SideChain.NextDifficulty.{get_difficulty_for_next_block}
use p2pool_observer.SideChain.State.{ChainState, Rules, get_by_template_id}

-- getPoolBlockByTemplateId, as the block behind the pointer.
unfoldable pub find_block : ChainState → List ℕ → Option PoolBlock
find_block s id = block_of s.heap (get_by_template_id s id)

-- The errors of getDifficulty: a block that is missing is the first one. A panic, or a loop
-- that does not end, counts as the second one.
unfoldable pub difficulty_error : Error → NextDifficulty
difficulty_error missing_uncle = not_yet
difficulty_error missing_parent = not_yet
difficulty_error e = never

unfoldable pub difficulty_result : Result Difficulty → NextDifficulty
difficulty_result (ok d) = difficulty_of d
difficulty_result (err e) = difficulty_error e
difficulty_result panic = never
difficulty_result stuck = never

-- The shares of getShares; a panic, or a loop that does not end, counts as none.
unfoldable pub shares_result : Result (List Share × ℕ) → List Share
shares_result (ok (shares, bottom_height)) = shares
shares_result (err e) = []
shares_result panic = []
shares_result stuck = []

-- `difficulty_by_height` and `main_height` are the server's, `sort_func` is slices.SortFunc, and
-- `ephemeral_public_key` the function of the cache of derived keys.
module _ (keccak : List ℕ → List ℕ) (lib : Uint128) (c : Consensus)
    (difficulty_by_height : ℕ → Difficulty) (main_height : List ℕ → Option ℕ)
    (sort_func : (Share → Share → Ordering) → List Share → List Share)
    (ephemeral_public_key : PackedAddress → List ℕ → ℕ → List ℕ × ℕ) where
  -- SideChain.getDifficulty
  unfoldable pub chain_difficulty : ChainState → ℕ → Result Difficulty
  chain_difficulty s a = get_difficulty_for_next_block s.heap (find_block s) lib c (s.heap a)

  -- SideChain.getShares
  unfoldable pub chain_shares : ChainState → PoolBlock → Result (List Share × ℕ)
  chain_shares s b = get_shares sort_func keccak s.heap (find_block s) lib c difficulty_by_height b

  -- SideChain.isLongerChain
  unfoldable pub chain_is_longer : ChainState → Option ℕ → ℕ → Result (Bool × Bool)
  chain_is_longer s block candidate =
      is_longer_chain s.heap (find_block s) main_height c (block_of s.heap block)
        (some (s.heap candidate))

  -- SideChain.verifyBlock
  unfoldable pub chain_verify_block : ChainState → ℕ → Verdict
  chain_verify_block s a =
      verify_block keccak lib c s.heap (get_by_template_id s) s.chain_tip s.current_difficulty
        (λ p. difficulty_result (chain_difficulty s p)) (λ b. shares_result (chain_shares s b))
        ephemeral_public_key (s.heap a)

  unfoldable pub chain_rules : Rules
  chain_rules = record {
    consensus = c;
    template_id = side_template_id keccak c;
    verify_block = chain_verify_block;
    is_longer_chain = chain_is_longer;
    get_difficulty = chain_difficulty;
  }
