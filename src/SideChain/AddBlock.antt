-- ===== src/SideChain/AddBlock.antt =====
-- SideChain.AddPoolBlock of p2pool/sidechain/sidechain.go, which puts a block at an address into the chain.
pub mod Healthy
pub mod Reachable
use p2pool_observer.Prelude.{
  ℕ, zero, suc, ◌+◌, ◌-◌, ◌*◌, ◌%◌, ◌^◌, Bool, true, false, not, ◌&&◌, ◌||◌, Option, none, some,
  List, [], ◌∷◌, ◌++◌, ◌==◌, ltb, leb, if◌then◌else◌, length,
}
use p2pool_observer.Codec.{Result, ok, err, panic, stuck, Error}
use p2pool_observer.Types.Hash.{bytes_eq, zero_hash}
use p2pool_observer.Utils.NthElement.{then_result}
use p2pool_observer.SideChain.PoolBlock.{PoolBlock, pool_block_append_binary_flags}
use p2pool_observer.SideChain.Verdict.{Reason}
use p2pool_observer.SideChain.State.{
  ChainState, Rules, ServerCall, update_block_found, put_id, find_height, put_height, get_by_height,
}
use p2pool_observer.SideChain.Prune.{is_known}
use p2pool_observer.SideChain.Tip.{update_chain_tip}
use p2pool_observer.SideChain.VerifyLoop.{verify_loop}
use p2pool_observer.SideChain.Depths.{update_depths}

-- The error of AddPoolBlock: none, the one of the encoding, or the one of the verification.
pub data AddError : Type 0 where
  no_error : AddError
  encoding_error : Error → AddError
  verification_error : Reason → AddError

unfoldable pub add_error : Option Reason → AddError
add_error none = no_error
add_error (some r) = verification_error r

-- Whether a height is the one after the last key.
unfoldable pub follows_last : List ℕ → ℕ → Bool
follows_last [] h = false
follows_last (k ∷ []) h = (k + 1) % 2 ^ 64 == h
follows_last (k ∷ k' ∷ ks) h = follows_last (k' ∷ ks) h

-- A block into the map of the heights, which has blocks at its height or not.
unfoldable pub add_at : ℕ → ℕ → Option (List ℕ) → ChainState → ChainState
add_at a h (some v) s = record s {
  blocks_by_height = put_height s.blocks_by_height h (v ++ (a ∷ []));
}
add_at a h none s = record s {
  blocks_by_height = put_height s.blocks_by_height h (a ∷ []);
  height_keys_sorted = s.height_keys_sorted && follows_last s.height_keys h;
  height_keys = s.height_keys ++ (h ∷ []);
}

unfoldable pub add_at_height : ℕ → ℕ → ChainState → ChainState
add_at_height a h s = add_at a h (find_height s.blocks_by_height h) s

-- The block that is watched for has been found.
unfoldable pub found_watched : ℕ → List ℕ → ChainState → ChainState
found_watched a id s =
    if bytes_eq id s.watch_block_template_id
    then record s { calls = update_block_found a ∷ s.calls; watch_block_template_id = zero_hash }
    else s

-- The deferred call of AddPoolBlock.
unfoldable pub store_sync_tip : ℕ → ChainState → ChainState
store_sync_tip a s =
    let b = s.heap a in if not b.invalid && b.depth == 0 then record s { sync_tip = some a } else s

module _ (rules : Rules) where
  -- The block into both maps.
  unfoldable pub insert_block : ℕ → ChainState → ChainState
  insert_block a s =
      let b = s.heap a in
      let id = rules.template_id b in
      add_at_height a b.side.height (
        found_watched a id
          (record s { blocks_by_template_id = put_id s.blocks_by_template_id id a }))

  module _ (now : ℕ) where
    unfoldable pub verify_added : ℕ → ChainState → Result (ChainState × Option Reason)
    verify_added a s =
        let b = s.heap a in
        if b.verified
        then (if b.invalid
            then ok (s, none)
            else then_result (update_chain_tip rules now a s) (λ s'. ok (s', none)))
        else verify_loop rules now a s

    -- After the encoding of the block, which is only looked at for its error.
    unfoldable pub add_encoded :
        ℕ → ℕ → Result (List ℕ) → ChainState → Result (ChainState × AddError)
    add_encoded fuel a (err e) s = ok (s, encoding_error e)
    add_encoded fuel a panic s = panic
    add_encoded fuel a stuck s = stuck
    add_encoded fuel a (ok buf) s =
        then_result (update_depths rules now fuel a (insert_block a s))
          (λ s1. then_result (verify_added a s1) (λ r. ok (store_sync_tip a r.0, add_error r.1)))

    -- SideChain.AddPoolBlock: the state and the error; `fuel` is that of updateDepths.
    unfoldable pub add_pool_block : ℕ → ℕ → ChainState → Result (ChainState × AddError)
    add_pool_block fuel a s =
        if is_known s (rules.template_id (s.heap a))
        then ok (s, no_error)
        else add_encoded fuel a (pool_block_append_binary_flags [] (s.heap a) false false) s
