-- ===== src/SideChain/Depths.antt =====
-- SideChain.updateDepths of p2pool/sidechain/sidechain.go: how many blocks are on top of each.
pub mod Healthy
use p2pool_observer.Prelude.{
  ℕ, zero, suc, ◌+◌, ◌-◌, ◌*◌, ◌%◌, ◌^◌, Bool, true, false, not, ◌&&◌, ◌||◌, Option, none, some,
  List, [], ◌∷◌, ◌++◌, ◌==◌, ltb, leb, if◌then◌else◌, length,
}
use p2pool_observer.Codec.{Result, ok, err, panic, stuck}
use p2pool_observer.Types.Hash.{bytes_eq}
use p2pool_observer.Utils.NthElement.{then_result}
use p2pool_observer.SideChain.PoolBlock.{PoolBlock, contains_hash, index_plus_one}
use p2pool_observer.SideChain.Consensus.{Consensus, uncle_block_depth}
use p2pool_observer.SideChain.State.{
  ChainState, Rules, write_block, get_by_height, parent_of, iterated_uncles,
}
use p2pool_observer.SideChain.VerifyLoop.{verify_loop}

-- The function `updateDepth`.
unfoldable pub update_depth : ChainState → ℕ → ℕ → ChainState
update_depth s a depth =
    let b = s.heap a in
    if ltb b.depth depth then write_block s a (record b { depth = depth }) else s

-- Of the loops of updateDepths: go on with a state and a stack, whose top is the head, or return.
pub data Progress : Type 0 where
  continues : ChainState → List ℕ → Progress
  returns : ChainState → Progress

unfoldable pub and_then : Progress → (ChainState → List ℕ → Progress) → Progress
and_then (returns s) f = returns s
and_then (continues s stack) f = f s stack

module _ (rules : Rules) where
  unfoldable pub is_child : PoolBlock → PoolBlock → Bool
  is_child child b = bytes_eq child.side.parent (rules.template_id b)

  -- The test `slices.Index(child.Side.Uncles, id) != 1`.
  unfoldable pub index_is_not_one : PoolBlock → PoolBlock → Bool
  index_is_not_one child b = not (index_plus_one child.side.uncles (rules.template_id b) == 2)

  unfoldable pub depth_above : ChainState → ℕ → ℕ
  depth_above s child = ((s.heap child).depth + 1) % 2 ^ 64

  -- The block's own depth from the blocks at a distance above it.
  unfoldable pub depth_from : ℕ → ℕ → List ℕ → ChainState → Progress
  depth_from a i [] s = continues s []
  depth_from a i (child ∷ v) s =
      let b = s.heap a in
      let from_child = is_child (s.heap child) b in
      if from_child && not (i == 1)
      then returns s
      else (let s1 = if from_child then update_depth s a (depth_above s child) else s in
          depth_from a i v (
            if index_is_not_one (s1.heap child) (s1.heap a)
            then update_depth s1 a (depth_above s1 child)
            else s1))

  -- The same for the distances from `i` on.
  unfoldable pub own_depth : ℕ → ℕ → ℕ → ChainState → Progress
  own_depth zero i a s = continues s []
  own_depth (suc n) i a s =
      and_then (depth_from a i (get_by_height s (((s.heap a).side.height + i) % 2 ^ 64)) s)
        (λ s' stack. own_depth n (i + 1) a s')

  -- A child at a distance above the block, whose depth was read before.
  unfoldable pub update_child : ℕ → ℕ → ℕ → ℕ → ChainState → List ℕ → Progress
  update_child a depth i child s stack =
      let b = s.heap a in
      let old_depth = (s.heap child).depth in
      let from_child = is_child (s.heap child) b in
      if from_child && not (i == 1)
      then returns s
      else (let s1 = if from_child && ltb 0 depth then update_depth s child (depth - 1) else s in
          let is_uncle =
            contains_hash (s1.heap child).side.uncles (rules.template_id (s1.heap a)) in
          let s2 = if is_uncle && ltb i depth then update_depth s1 child (depth - i) else s1 in
          continues s2 (if ltb old_depth (s2.heap child).depth then child ∷ stack else stack))

  unfoldable pub update_children : ℕ → ℕ → ℕ → List ℕ → ChainState → List ℕ → Progress
  update_children a depth i [] s stack = continues s stack
  update_children a depth i (child ∷ v) s stack =
      and_then (update_child a depth i child s stack)
        (λ s' stack'. update_children a depth i v s' stack')

  unfoldable pub update_above : ℕ → ℕ → ℕ → ℕ → ChainState → List ℕ → Progress
  update_above zero i a depth s stack = continues s stack
  update_above (suc n) i a depth s stack =
      and_then
        (update_children a depth i (get_by_height s (((s.heap a).side.height + i) % 2 ^ 64)) s
          stack)
        (λ s' stack'. update_above n (i + 1) a depth s' stack')

  -- The parent, where there is one.
  unfoldable pub update_parent : ℕ → ℕ → Option ℕ → ChainState → List ℕ → Progress
  update_parent a depth none s stack = continues s stack
  update_parent a depth (some p) s stack =
      if not (((s.heap p).side.height + 1) % 2 ^ 64 == (s.heap a).side.height)
      then returns s
      else if ltb (s.heap p).depth ((depth + 1) % 2 ^ 64)
      then continues (update_depth s p ((depth + 1) % 2 ^ 64)) (p ∷ stack)
      else continues s stack

  -- The uncles, with whether a return was asked for so far: the others are updated all the same.
  unfoldable pub update_uncles : ℕ → ℕ → List ℕ → Bool → ChainState → List ℕ → Progress
  update_uncles a depth [] asked s stack = if asked then returns s else continues s stack
  update_uncles a depth (u ∷ us) asked s stack =
      let height = (s.heap a).side.height in
      let uncle_height = (s.heap u).side.height in
      if leb height uncle_height || ltb ((uncle_height + uncle_block_depth) % 2 ^ 64) height
      then update_uncles a depth us true s stack
      else (let d = (depth + (height - uncle_height)) % 2 ^ 64 in
          if ltb (s.heap u).depth d
          then update_uncles a depth us asked (update_depth s u d) (u ∷ stack)
          else update_uncles a depth us asked s stack)

  -- A round of the loop after the block was perhaps verified: all blocks near it, by its depth before.
  unfoldable pub update_near : ℕ → ℕ → ChainState → List ℕ → Progress
  update_near a depth s stack =
      and_then (update_above uncle_block_depth 1 a depth s stack) (λ s1 stack1.
        and_then (update_parent a depth (parent_of s1 (s1.heap a)) s1 stack1)
          (λ s2 stack2. update_uncles a depth (iterated_uncles s2 (s2.heap a)) false s2 stack2))

  module _ (now : ℕ) where
    -- A block that the network has verified long ago, or the genesis, is verified.
    unfoldable pub verify_deep : ℕ → ChainState → Result ChainState
    verify_deep a s =
        let b = s.heap a in
        if not b.verified
          && (leb (rules.consensus.chain_window_size * 2 % 2 ^ 64) b.depth || b.side.height == 0)
        then then_result (verify_loop rules now a s) (λ r. ok r.0)
        else ok s

    -- The loop over the stack, with its rounds, after the first part or a round of it.
    unfoldable pub depths_loop : ℕ → Progress → Result ChainState
    depths_loop fuel (returns s) = ok s
    depths_loop fuel (continues s []) = ok s
    depths_loop zero (continues s (a ∷ stack)) = stuck
    depths_loop (suc fuel) (continues s (a ∷ stack)) =
        then_result (verify_deep a s)
          (λ s'. depths_loop fuel (update_near a (s.heap a).depth s' stack))

    -- SideChain.updateDepths, with the rounds of its second loop.
    unfoldable pub update_depths : ℕ → ℕ → ChainState → Result ChainState
    update_depths fuel a s =
        depths_loop fuel
          (and_then (own_depth uncle_block_depth 1 a s) (λ s' stack. continues s' (a ∷ [])))
