-- ===== src/SideChain/VerifyLoop.antt =====
-- SideChain.verifyLoop of p2pool/sidechain/sidechain.go: the blocks that are verified after one another.
pub mod Healthy
pub mod Pending
pub mod Falling
pub mod Ends
pub mod Accepts
use p2pool_observer.Prelude.{
  ℕ, zero, suc, ◌+◌, ◌*◌, ◌%◌, ◌^◌, Bool, true, false, not, ◌||◌, Option, none, some, List, [], ◌∷◌,
  ◌++◌, ◌==◌, ltb, leb, if◌then◌else◌, length,
}
use p2pool_observer.Codec.{Result, ok, err, panic, stuck}
use p2pool_observer.Utils.NthElement.{then_result}
use p2pool_observer.SideChain.PoolBlock.{PoolBlock, IterationCache, fill_parent_indices}
use p2pool_observer.SideChain.Consensus.{Consensus, uncle_block_depth}
use p2pool_observer.SideChain.Verdict.{
  Reason, Verdict, verified, fails, Failure, looping, unverifiable, invalid,
}
use p2pool_observer.SideChain.State.{
  ChainState, Rules, ServerCall, store, write_block, get_by_template_id, get_by_height, parent_of,
  found_until_missing, broadcast_once,
}
use p2pool_observer.SideChain.Tip.{update_chain_tip}

-- The two flags of a verdict.
unfoldable pub mark : Bool → Bool → ℕ → ChainState → ChainState
mark verified' invalid' a s =
    write_block s a (record (s.heap a) { verified = verified'; invalid = invalid' })

-- The cache of a verified block: none where an uncle is missing, and the one that it has where its parent is
-- missing.
unfoldable pub cache_with : ChainState → PoolBlock → Option ℕ → Option IterationCache
cache_with s b none = b.iteration_cache
cache_with s b (some p) =
    let uncles = found_until_missing s b.side.uncles in
    if length uncles == length b.side.uncles
    then some (record { parent = some p; uncles = uncles })
    else none

unfoldable pub iteration_cache_of : ChainState → PoolBlock → Option IterationCache
iteration_cache_of s b = cache_with s b (parent_of s b)

unfoldable pub fill_cache : ℕ → ChainState → ChainState
fill_cache a s =
    let b = s.heap a in write_block s a (record b { iteration_cache = iteration_cache_of s b })

unfoldable pub block_at : ChainState → Option ℕ → Option PoolBlock
block_at s none = none
block_at s (some p) = some (s.heap p)

-- SideChain.fillPoolBlockTransactionParentIndices
unfoldable pub fill_transaction_parent_indices : ℕ → ChainState → ChainState
fill_transaction_parent_indices a s =
    let b = s.heap a in
    let (indices, filled) = fill_parent_indices b (block_at s (parent_of s b)) in
    write_block s a (record b { main = record b.main { transaction_parent_indices = indices } })

-- From the flags of a verified block to its transactions' indices.
unfoldable pub settle : ℕ → ChainState → ChainState
settle a s = fill_transaction_parent_indices a (fill_cache a (mark true false a s))

-- What the server is told of a verified block; SideChain.saveBlock stores it.
unfoldable pub announce : ℕ → ChainState → ChainState
announce a s =
    let sent = broadcast_once (ltb (s.heap a).depth uncle_block_depth) s a in
    record sent { calls = store a ∷ sent.calls }

unfoldable pub reversed_onto : List ℕ → List ℕ → List ℕ
reversed_onto [] stack = stack
reversed_onto (a ∷ v) stack = reversed_onto v (a ∷ stack)

-- The blocks of the next three heights, on top of the stack.
unfoldable pub push_above : ChainState → ℕ → List ℕ → List ℕ
push_above s h stack = reversed_onto (get_by_height s ((h + 3) % 2 ^ 64)) (
    reversed_onto (get_by_height s ((h + 2) % 2 ^ 64))
      (reversed_onto (get_by_height s ((h + 1) % 2 ^ 64)) stack))

-- The error that is returned: the one of the block that the loop began with.
unfoldable pub saved_error : ℕ → ℕ → Reason → Option Reason → Option Reason
saved_error target a r e = if a == target then some r else e

-- The variables of the loop, apart from its stack: highestBlock, the error and the state.
pub record LoopState : Type 0 where
  pub highest : Option ℕ
  pub error : Option Reason
  pub state : ChainState

unfoldable pub higher_of : Option ℕ → ℕ → Bool → Option ℕ
higher_of highest a longer = if longer then some a else highest

-- All blocks of the heights.
unfoldable pub entries : List (ℕ × List ℕ) → List ℕ
entries [] = []
entries ((h, v) ∷ m) = v ++ entries m

-- Rounds for the block, and for three heights' blocks on top of each block that is verified.
unfoldable pub verify_fuel : ChainState → ℕ
verify_fuel s = let n = suc (length (entries s.blocks_by_height)) in 1 + n * (3 * n)

-- The variables at first.
unfoldable pub start : ChainState → LoopState
start s = record { highest = none; error = none; state = s }

module _ (rules : Rules) where
  -- A verified block is settled, compared and announced, and the blocks above it are pushed.
  unfoldable pub accept : ℕ → List ℕ → LoopState → Result (List ℕ × LoopState)
  accept a stack l =
      let settled = settle a l.state in
      then_result (rules.is_longer_chain settled l.highest a) (λ r.
        let announced = announce a settled in
        ok (
          push_above announced (announced.heap a).side.height stack,
          record l { highest = higher_of l.highest a r.0; state = announced },
        ))

  -- What follows from the verdict on a block: the stack and the variables afterwards.
  unfoldable pub judge : ℕ → ℕ → Verdict → List ℕ → LoopState → Result (List ℕ × LoopState)
  judge target a (fails looping) stack l = stuck
  judge target a (fails (invalid r)) stack l =
      ok (
        stack,
        record l { error = saved_error target a r l.error; state = mark true true a l.state },
      )
  judge target a (fails (unverifiable r)) stack l =
      ok (stack, record l { state = mark false false a l.state })
  judge target a verified stack l = accept a stack l

  -- The body of the loop.
  unfoldable pub verify_one : ℕ → ℕ → List ℕ → LoopState → Result (List ℕ × LoopState)
  verify_one target a stack l =
      if (l.state.heap a).verified
      then ok (stack, l)
      else judge target a (rules.verify_block l.state a) stack l

  -- The loop over the stack, whose top is the head; it has a round for each block that it takes.
  unfoldable pub verify_stack : ℕ → ℕ → List ℕ → LoopState → Result LoopState
  verify_stack fuel target [] l = ok l
  verify_stack zero target (a ∷ stack) l = stuck
  verify_stack (suc fuel) target (a ∷ stack) l =
      then_result (verify_one target a stack l) (λ r. verify_stack fuel target r.0 r.1)

  module _ (now : ℕ) where
    unfoldable pub update_highest : Option ℕ → LoopState → Result (ChainState × Option Reason)
    update_highest none l = ok (l.state, l.error)
    update_highest (some a) l =
        then_result (update_chain_tip rules now a l.state) (λ s. ok (s, l.error))

    -- SideChain.verifyLoop: the state and the error.
    unfoldable pub verify_loop : ℕ → ChainState → Result (ChainState × Option Reason)
    verify_loop a s =
        then_result (verify_stack (verify_fuel s) a (a ∷ []) (start s))
          (λ l. update_highest l.highest l)
