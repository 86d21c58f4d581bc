-- ===== src/SideChain/Missing.antt =====
-- What p2pool/sidechain/sidechain.go asks of the state: which blocks are missing and which are seen.
use p2pool_observer.Prelude.{
  ℕ, zero, suc, ◌+◌, ◌*◌, ◌%◌, ◌^◌, Bool, true, false, not, ◌&&◌, Option, none, some, List, [], ◌∷◌,
  ◌++◌, ◌==◌, ltb, leb, if◌then◌else◌, length,
}
use p2pool_observer.Codec.{Result, ok}
use p2pool_observer.Types.Hash.{bytes_eq, zero_hash}
use p2pool_observer.Types.Difficulty.{cmp}
use p2pool_observer.Utils.NthElement.{then_result}
use p2pool_observer.SideChain.PoolBlock.{PoolBlock, contains_hash, full_id}
use p2pool_observer.SideChain.Consensus.{Consensus}
use p2pool_observer.SideChain.Verdict.{is_lt}
use p2pool_observer.SideChain.State.{ChainState, get_by_template_id, found_until_missing}
use p2pool_observer.SideChain.Prune.{is_known}

-- The test that a hash is one of a missing block.
unfoldable pub is_missing : ChainState → List ℕ → Bool
is_missing s id = not (bytes_eq id zero_hash) && not (is_known s id)

-- The hashes that AddPoolBlockExternal returns: those of the block's parent and uncles that are missing.
unfoldable pub missing_of : ChainState → List (List ℕ) → List (List ℕ)
missing_of s [] = []
missing_of s (id ∷ ids) = if is_missing s id then id ∷ missing_of s ids else missing_of s ids

unfoldable pub missing_for : ChainState → PoolBlock → List (List ℕ)
missing_for s b = missing_of s (b.side.parent ∷ b.side.uncles)

-- The loop of GetMissingBlocks over the uncles, with how many are missing so far; the second component is
-- whether the iteration over all blocks is to stop.
unfoldable pub missing_uncles : ChainState → ℕ → List (List ℕ) → List (List ℕ) × Bool
missing_uncles s n [] = ([], false)
missing_uncles s n (id ∷ ids) =
    if is_missing s id
    then (if leb 2 (n + 1)
        then (id ∷ [], true)
        else (let rest = missing_uncles s (n + 1) ids in (id ∷ rest.0, rest.1)))
    else missing_uncles s n ids

-- The function that GetMissingBlocks calls with each block.
unfoldable pub missing_near : ChainState → PoolBlock → List (List ℕ) × Bool
missing_near s b =
    if b.verified
    then ([], false)
    else (let uncles = missing_uncles s 0 b.side.uncles in
        (missing_of s (b.side.parent ∷ []) ++ uncles.0, uncles.1))

-- SideChain.GetMissingBlocks over the addresses of all blocks in the map's order.
unfoldable pub get_missing_blocks : ChainState → List ℕ → List (List ℕ)
get_missing_blocks s [] = []
get_missing_blocks s (a ∷ rest) =
    let (missing, stop) = missing_near s (s.heap a) in
    missing ++ (if stop then [] else get_missing_blocks s rest)

-- The early exit of BlockSeen: a block that is far below the tip.
unfoldable pub is_far_below_tip : Consensus → ChainState → PoolBlock → Bool
is_far_below_tip c s b = elim s.chain_tip [
  | none ↦ false
  | some t ↦
      let tip = s.heap t in
      ltb ((b.side.height + c.chain_window_size * 2) % 2 ^ 64) tip.side.height
      && is_lt (cmp b.side.cumulative_difficulty tip.side.cumulative_difficulty)
]

-- SideChain.BlockSeen: the answer, and the state afterwards.
unfoldable pub block_seen : Consensus → PoolBlock → ChainState → Result (Bool × ChainState)
block_seen c b s =
    if is_far_below_tip c s b
    then ok (true, s)
    else then_result (full_id b) (λ id.
      if contains_hash s.seen_blocks id
      then ok (true, s)
      else ok (false, record s { seen_blocks = id ∷ s.seen_blocks }))

unfoldable pub remove_hash : List (List ℕ) → List ℕ → List (List ℕ)
remove_hash [] h = []
remove_hash (x ∷ xs) h = if bytes_eq x h then remove_hash xs h else x ∷ remove_hash xs h

-- SideChain.BlockUnsee
unfoldable pub block_unsee : PoolBlock → ChainState → Result ChainState
block_unsee b s =
    then_result (full_id b) (λ id. ok (record s { seen_blocks = remove_hash s.seen_blocks id }))

-- SideChain.WatchMainChainBlock, but for the main chain's data.
unfoldable pub watch_main_chain_block : List ℕ → ChainState → ChainState
watch_main_chain_block id s = record s { watch_block_template_id = id }

-- SideChain.GetHighestKnownTip
unfoldable pub get_highest_known_tip : ChainState → Option ℕ
get_highest_known_tip s = elim s.chain_tip [ none ↦ s.sync_tip | some t ↦ some t ]

-- SideChain.LastUpdated
unfoldable pub last_updated : ChainState → ℕ
last_updated s = elim s.chain_tip [ none ↦ 0 | some t ↦ (s.heap t).local_timestamp ]

-- SideChain.GetPoolBlockCount
unfoldable pub get_pool_block_count : ChainState → ℕ
get_pool_block_count s = length s.blocks_by_template_id

-- The loop of GetPoolBlocksFromTip and GetPoolBlocksFromTipWithDepth, with the blocks that may still
-- be taken: the chain and the uncles so far. A block with an uncle that is missing ends it, without its
-- uncles.
unfoldable pub blocks_from : ChainState → ℕ → List ℕ → List ℕ → List ℕ → List ℕ × List ℕ
blocks_from s zero id chain uncles = (chain, uncles)
blocks_from s (suc n) id chain uncles = elim (get_by_template_id s id) [
  | none ↦ (chain, uncles)
  | some cur ↦
      let b = s.heap cur in
      let found = found_until_missing s b.side.uncles in
      elim (length found == length b.side.uncles) [
        | false ↦ (chain, uncles)
        | true ↦ blocks_from s n b.side.parent (chain ++ (cur ∷ [])) (uncles ++ found)
      ]
]

-- SideChain.GetPoolBlocksFromTipWithDepth; `int(depth)` is negative from 2 ^ 63 on.
unfoldable pub get_pool_blocks_from_tip_with_depth : ChainState → List ℕ → ℕ → List ℕ × List ℕ
get_pool_blocks_from_tip_with_depth s id depth =
    if leb (2 ^ 63) depth then ([], []) else blocks_from s depth id [] []
