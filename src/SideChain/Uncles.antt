-- ===== src/SideChain/Uncles.antt =====
-- The checks of SideChain.verifyBlock of p2pool/sidechain/sidechain.go on the uncles of a share.
pub mod Ancestors
pub mod Sound
use Prim.Native.Nat.{Ordering}
use p2pool_observer.Prelude.{
  ℕ, zero, suc, ◌+◌, ◌-◌, ◌*◌, ◌%◌, ◌^◌, Bool, true, false, not, ◌&&◌, ◌||◌, Option, none, some,
  List, [], ◌∷◌, ◌++◌, ltb, leb, ◌==◌, min, if◌then◌else◌, length, map,
}
use p2pool_observer.Types.Uint128.{Difficulty, Uint128}
use p2pool_observer.Types.Difficulty.{zero_difficulty, same, add}
use p2pool_observer.Types.Hash.{bytes_eq, zero_hash, compare_hash}
use p2pool_observer.Transaction.Output.{Output, tx_out_to_tagged_key}
use p2pool_observer.SideChain.SideData.{share_version_v1}
use p2pool_observer.SideChain.Share.{Share, PackedAddress}
use p2pool_observer.SideChain.Reward.{given_total, split_reward}
use p2pool_observer.SideChain.PoolBlock.{PoolBlock, IterationCache, contains_hash}
use p2pool_observer.SideChain.Consensus.{
  Consensus, uncle_block_depth, side_template_id, calculate_transaction_private_key_seed,
}
use p2pool_observer.SideChain.Verdict.{
  Reason, Failure, looping, unverifiable, invalid, different_chain, empty_uncle, uncle_mined,
  uncle_missing, uncle_not_verified, uncle_invalid, uncle_height, Check, goes_on, ends, is_lt,
}

-- `heap` holds the blocks behind the pointers, and `find` is blocksByTemplateId.
module _ (heap : ℕ → PoolBlock) (find : List ℕ → Option ℕ) where
  -- SideChain.getParent
  unfoldable pub get_parent : PoolBlock → Option ℕ
  get_parent b = elim b.iteration_cache [ none ↦ find b.side.parent | some cache ↦ cache.parent ]

  -- The walk from the parent down to the uncle's height: `none` is a nil parent on the way.
  unfoldable pub walk_back : ℕ → ℕ → ℕ → Option (Option ℕ)
  walk_back zero height p = none
  walk_back (suc fuel) height p =
      if ltb height (heap p).side.height
      then elim (get_parent (heap p)) [ none ↦ some none | some q ↦ walk_back fuel height q ]
      else some (some p)

  -- The function `sameChain`, with the rounds that are left.
  unfoldable pub same_chain : ℕ → ℕ → Option ℕ → Option ℕ → Bool
  same_chain zero height tmp tmp2 = false
  same_chain (suc n) height none tmp2 = false
  same_chain (suc n) height (some p) none = false
  same_chain (suc n) height (some p) (some q) =
      if leb height (((heap p).side.height + uncle_block_depth) % 2 ^ 64)
      then (if bytes_eq (heap p).side.parent (heap q).side.parent
          then true
          else same_chain n height (get_parent (heap p)) (get_parent (heap q)))
      else false

  -- The check that the uncle and the parent have the same ancestor; the walk has a round for every
  -- height.
  unfoldable pub check_ancestor : PoolBlock → ℕ → ℕ → Difficulty → Check
  check_ancestor b parent u expected =
      let uncle = heap u in
      elim (walk_back (suc (heap parent).side.height) uncle.side.height parent) [
        | none ↦ ends looping
        | some none ↦ ends (invalid different_chain)
        | some (some tmp) ↦
            if ltb (heap tmp).side.height uncle.side.height
            then ends (invalid different_chain)
            else if same_chain uncle_block_depth b.side.height (some tmp) (some u)
            then goes_on (add expected uncle.side.difficulty)
            else ends (invalid different_chain)
      ]

  -- The body of the loop over the uncles.
  unfoldable pub check_uncle : PoolBlock → ℕ → List (List ℕ) → Difficulty → List ℕ → Check
  check_uncle b parent mined expected id =
      if bytes_eq id zero_hash
      then ends (invalid empty_uncle)
      else if contains_hash mined id
      then ends (invalid uncle_mined)
      else elim (find id) [
        | none ↦ ends (unverifiable uncle_missing)
        | some u ↦
            if not (heap u).verified
            then ends (unverifiable uncle_not_verified)
            else if (heap u).invalid
            then ends (invalid uncle_invalid)
            else if leb b.side.height (heap u).side.height
                || ltb (((heap u).side.height + uncle_block_depth) % 2 ^ 64) b.side.height
            then ends (invalid uncle_height)
            else check_ancestor b parent u expected
      ]

  unfoldable pub check_uncles : PoolBlock → ℕ → List (List ℕ) → Difficulty → List (List ℕ) → Check
  check_uncles b parent mined expected [] = goes_on expected
  check_uncles b parent mined expected (id ∷ ids) = elim (check_uncle b parent mined expected id) [
    | goes_on expected' ↦ check_uncles b parent mined expected' ids
    | ends failure ↦ ends failure
  ]
