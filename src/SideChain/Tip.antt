-- ===== src/SideChain/Tip.antt =====
-- SideChain.updateChainTip of p2pool/sidechain/sidechain.go.
pub mod Healthy
use p2pool_observer.Prelude.{
  ℕ, Bool, true, false, not, ◌||◌, Option, none, some, List, [], ◌∷◌, leb, if◌then◌else◌,
}
use p2pool_observer.Codec.{Result, ok, err, panic, stuck}
use p2pool_observer.Types.Uint128.{Difficulty}
use p2pool_observer.Types.Difficulty.{zero_difficulty, same}
use p2pool_observer.SideChain.PoolBlock.{PoolBlock}
use p2pool_observer.SideChain.State.{
  ChainState, Rules, ServerCall, update_tip, write_block, same_address, broadcast_once,
}
use p2pool_observer.SideChain.Prune.{prune_old_blocks}

-- The last statement of updateChainTip.
unfoldable pub broadcast_tip : ℕ → Result ChainState → Result ChainState
broadcast_tip a (ok s) = ok (broadcast_once true s a)
broadcast_tip a (err e) = err e
broadcast_tip a panic = panic
broadcast_tip a stuck = stuck

-- The block at `a` becomes the tip.
unfoldable pub store_tip : ℕ → Bool → Difficulty → ChainState → ChainState
store_tip a is_alternative difficulty s =
    let moved = record (write_block s a (record (s.heap a) { want_broadcast = true })) {
      chain_tip = some a;
      sync_tip = some a;
      current_difficulty = difficulty;
      calls = update_tip a ∷ s.calls;
    } in
    if is_alternative then record moved { precalc_finished = true } else moved

-- Code that reads the tip, which is nil or not.
unfoldable pub with_tip : Option ℕ → ChainState → Result ChainState
with_tip none s = panic
with_tip (some t) s = ok s

module _ (rules : Rules) (now : ℕ) where
  -- With the difficulty after the block; an error of getDifficulty leaves it zero.
  unfoldable pub move_tip : ℕ → Bool → Result Difficulty → ChainState → Result ChainState
  move_tip a is_alternative (ok difficulty) s =
      if same difficulty zero_difficulty
      then ok s
      else prune_old_blocks rules now (store_tip a is_alternative difficulty s)
  move_tip a is_alternative (err e) s = ok s
  move_tip a is_alternative panic s = panic
  move_tip a is_alternative stuck s = stuck

  -- With the answer of isLongerChain; where it is no, the code reads the tip's height.
  unfoldable pub choose_tip : ℕ → Result (Bool × Bool) → ChainState → Result ChainState
  choose_tip a (ok (true, is_alternative)) s =
      move_tip a is_alternative (rules.get_difficulty s a) s
  choose_tip a (ok (false, is_alternative)) s = with_tip s.chain_tip s
  choose_tip a (err e) s = err e
  choose_tip a panic s = panic
  choose_tip a stuck s = stuck

  -- SideChain.updateChainTip
  unfoldable pub update_chain_tip : ℕ → ChainState → Result ChainState
  update_chain_tip a s =
      let b = s.heap a in
      if not b.verified || b.invalid
      then ok s
      else if leb rules.consensus.chain_window_size b.depth
      then ok s
      else if same_address s.chain_tip a
      then ok s
      else broadcast_tip a (choose_tip a (rules.is_longer_chain s s.chain_tip a) s)
