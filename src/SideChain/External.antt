-- ===== src/SideChain/External.antt =====
-- SideChain.AddPoolBlockExternal of p2pool/sidechain/sidechain.go: the checks of a share from a peer.
pub mod Hard
pub mod Checked
use Prim.Native.Nat.{Ordering}
use p2pool_observer.Prelude.{
  ℕ, zero, suc, ◌+◌, ◌%◌, ◌^◌, Bool, true, false, not, ◌&&◌, Option, none, some, List, [], ◌∷◌,
  ◌==◌, ltb, leb, if◌then◌else◌,
}
use p2pool_observer.Codec.{Result, ok, err, panic, stuck}
use p2pool_observer.Types.Uint128.{Difficulty, Uint128}
use p2pool_observer.Types.Difficulty.{zero_difficulty, same, cmp, mul64}
use p2pool_observer.Types.ProofOfWork.{at_least, check_pow}
use p2pool_observer.Types.Hash.{bytes_eq, hash_from_bytes}
use p2pool_observer.Utils.NthElement.{then_result}
use p2pool_observer.Transaction.Output.{Output}
use p2pool_observer.Block.Emission.{tail_emission_reward}
use p2pool_observer.Block.Merkle.{pow_hash_with_error}
use p2pool_observer.SideChain.PoolBlock.{
  PoolBlock, hard_fork_view_tags_version, coinbase_public_key, coinbase_template_id,
  transaction_output_type, private_key_seed,
}
use p2pool_observer.SideChain.Verdict.{is_lt}
use p2pool_observer.SideChain.State.{ChainState, Rules, ServerCall, submit_block, parent_of}
use p2pool_observer.SideChain.Prune.{is_known}
use p2pool_observer.SideChain.AddBlock.{AddError, add_pool_block}
use p2pool_observer.SideChain.Missing.{missing_for, block_unsee}

-- Why a share is not added.
pub data Rejection : Type 0 where
  reward_too_low wrong_transaction_keys unexpected_output_type wrong_template_id : Rejection
  difficulty_below_minimum difficulty_too_low wrong_mainchain_height : Rejection
  no_pow_hash not_enough_pow : Rejection
  not_preprocessed : List (List ℕ) → Rejection

-- What is returned: an error and whether the peer is banned, nothing for a share that is known, or the
-- missing blocks and the error of AddPoolBlock.
pub data Outcome : Type 0 where
  rejected : Rejection → Bool → Outcome
  already_known : Outcome
  added : List (List ℕ) → AddError → Outcome

-- What the function calls outside of the side chain: `keccak`, `uint256_div`, `lib` and `randomx` of other
-- packages, the server's blocks of the main chain, and the cache's deterministic keys, public and private,
-- of a seed and a PreviousId.
pub record Outside : Type 0 where
  pub keccak : List ℕ → List ℕ
  pub uint256_div : ℕ → ℕ → ℕ
  pub lib : Uint128
  pub randomx : List ℕ → List ℕ → Option (List ℕ)
  pub seed_by_height : ℕ → List ℕ
  pub difficulty_by_height : ℕ → Difficulty
  pub main_height_by_hash : List ℕ → Option ℕ
  pub deterministic_key : List ℕ → List ℕ → List ℕ × List ℕ

module _ (outside : Outside) where
  -- SideChain.isPoolBlockTransactionKeyIsDeterministic
  unfoldable pub has_deterministic_keys : PoolBlock → Bool
  has_deterministic_keys b =
      let seed = private_key_seed (λ s id. (outside.deterministic_key s id).1) b in
      let keys = outside.deterministic_key seed b.main.previous_id in
      bytes_eq (coinbase_public_key b) keys.0 && bytes_eq b.side.coinbase_private_key keys.1

  -- PoolBlock.PowHashWithError, without its cache.
  unfoldable pub pow_hash : PoolBlock → Result (Option (List ℕ))
  pow_hash b = pow_hash_with_error outside.keccak outside.seed_by_height outside.randomx b.main

  -- PoolBlock.IsProofHigherThanMainDifficultyWithError for a hash; an error is false.
  unfoldable pub is_higher_main_chain : PoolBlock → List ℕ → Bool
  is_higher_main_chain b pow =
      let difficulty = outside.difficulty_by_height b.main.coinbase.gen_height in
      not (same difficulty zero_difficulty) && check_pow outside.uint256_div difficulty pow

unfoldable pub all_of_type : ℕ → List Output → Bool
all_of_type t [] = true
all_of_type t (o ∷ os) = o.output_type == t && all_of_type t os

module _ (rules : Rules) where
  -- The loop of the anti-spam measure, with its rounds: whether a share of the window has at most twice the
  -- difficulty.
  unfoldable pub near_enough : ℕ → ChainState → ℕ → Difficulty → Option ℕ → Result Bool
  near_enough fuel s tip_height diff2 none = ok false
  near_enough zero s tip_height diff2 (some a) = stuck
  near_enough (suc fuel) s tip_height diff2 (some a) =
      let tmp = s.heap a in
      elim (ltb tip_height ((tmp.side.height + rules.consensus.chain_window_size) % 2 ^ 64)) [
        | false ↦ ok false
        | true ↦ elim (at_least (cmp diff2 tmp.side.difficulty)) [
          | true ↦ ok true
          | false ↦ near_enough fuel s tip_height diff2 (parent_of s tmp)
        ]
      ]

  unfoldable pub height_of : ChainState → Option ℕ → ℕ
  height_of s none = 0
  height_of s (some t) = (s.heap t).side.height

  -- Whether the difficulty is too low, with the anti-spam measure.
  unfoldable pub too_low : ChainState → PoolBlock → Result Bool
  too_low s b =
      if is_lt (cmp b.side.difficulty s.current_difficulty)
      then then_result
          (near_enough (suc rules.consensus.chain_window_size) s (height_of s s.chain_tip)
            (mul64 b.side.difficulty 2) s.chain_tip)
          (λ near. ok (not near))
      else ok false

  -- The check of the main chain's height, where the previous block is known.
  unfoldable pub wrong_height : Option ℕ → PoolBlock → Bool
  wrong_height none b = false
  wrong_height (some h) b = not ((h + 1) % 2 ^ 64 == b.main.coinbase.gen_height)

  module _ (outside : Outside) (now fuel : ℕ) where
    -- A share with enough proof of work is added.
    unfoldable pub add_checked : ℕ → ChainState → Result (ChainState × Outcome)
    add_checked a s =
        then_result (add_pool_block rules now fuel a s)
          (λ r. ok (r.0, added (missing_for s (s.heap a)) r.1))

    -- With the hash of the proof of work, or its error.
    unfoldable pub check_proof : ℕ → Option (List ℕ) → ChainState → Result (ChainState × Outcome)
    check_proof a none s =
        then_result (block_unsee (s.heap a) s) (λ s'. ok (s', rejected no_pow_hash false))
    check_proof a (some pow) s =
        let b = s.heap a in
        let submitted =
          if is_higher_main_chain outside b pow
          then record s { calls = submit_block a ∷ s.calls }
          else s in
        if check_pow outside.uint256_div b.side.difficulty pow
        then add_checked a submitted
        else ok (submitted, rejected not_enough_pow true)

    -- From the anti-spam measure on.
    unfoldable pub check_low : ℕ → Bool → ChainState → Result (ChainState × Outcome)
    check_low a low s =
        let b = s.heap a in
        if low
        then ok (s, rejected difficulty_too_low false)
        else if wrong_height (outside.main_height_by_hash b.main.previous_id) b
        then ok (s, rejected wrong_mainchain_height true)
        else then_result (pow_hash outside b) (λ pow. check_proof a pow s)

    -- The checks after the block was processed. A block that is known is not looked at further: the two main
    -- ids that the code compares then are those of one block.
    unfoldable pub check_processed : ℕ → ChainState → Result (ChainState × Outcome)
    check_processed a s =
        let b = s.heap a in
        let template_id = hash_from_bytes (coinbase_template_id b) in
        if not (all_of_type (transaction_output_type b) b.main.coinbase.outputs)
        then ok (s, rejected unexpected_output_type true)
        else if not (bytes_eq template_id (rules.template_id b))
        then ok (s, rejected wrong_template_id true)
        else if is_lt (outside.lib.cmp64 b.side.difficulty rules.consensus.minimum_difficulty)
        then ok (s, rejected difficulty_below_minimum true)
        else if is_known s template_id
        then ok (s, already_known)
        else then_result (too_low s b) (λ low. check_low a low s)

    -- What PreprocessBlock returns: its error comes with the blocks that are missing.
    unfoldable pub after_preprocess :
        ℕ → ChainState × Option (List (List ℕ)) → Result (ChainState × Outcome)
    after_preprocess a (s, none) = check_processed a s
    after_preprocess a (s, some missing) = ok (s, rejected (not_preprocessed missing) true)

    -- SideChain.AddPoolBlockExternal of the share at `a`, where `preprocess` is SideChain.PreprocessBlock; a
    -- panic in the call is an error that bans the peer, too.
    unfoldable pub add_pool_block_external :
        (ℕ → ChainState → Result (ChainState × Option (List (List ℕ))))
        → ℕ
        → ChainState
        → Result (ChainState × Outcome)
    add_pool_block_external preprocess a s =
        let b = s.heap a in
        if ltb b.main.coinbase.total_reward tail_emission_reward
        then ok (s, rejected reward_too_low true)
        else if leb hard_fork_view_tags_version b.main.major_version
            && not (has_deterministic_keys outside b)
        then ok (s, rejected wrong_transaction_keys true)
        else then_result (preprocess a s) (λ r. after_preprocess a r)
