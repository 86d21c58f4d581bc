-- ===== src/SideChain/State.antt =====
-- The state of SideChain of p2pool/sidechain/sidechain.go, and its lookups. Pointers to blocks are
-- addresses of a heap. Left out are the locks, the buffers that are allocated before, and the cache of
-- derived keys.

pub mod Health
pub mod Writes
pub mod Outcomes
pub mod Falls
use p2pool_observer.Prelude.{
  ℕ, zero, suc, ◌+◌, ◌%◌, ◌^◌, Bool, true, false, Option, none, some, List, [], ◌∷◌, ◌++◌, ◌==◌,
  if◌then◌else◌, length,
}
use p2pool_observer.Codec.{Result}
use p2pool_observer.Types.Uint128.{Difficulty}
use p2pool_observer.Types.Hash.{bytes_eq}
use p2pool_observer.SideChain.PoolBlock.{PoolBlock, IterationCache}
use p2pool_observer.SideChain.Consensus.{Consensus}
use p2pool_observer.SideChain.Verdict.{Verdict}

-- The calls of P2PoolInterface that the chain makes for their effects, by the address of the block.
pub data ServerCall : Type 0 where
  broadcast update_tip store update_block_found submit_block : ℕ → ServerCall

-- Of a map, an association list holds the keys that are present, each once.
pub record ChainState : Type 0 where
  pub heap : ℕ → PoolBlock
  pub blocks_by_template_id : List (List ℕ × ℕ)
  pub blocks_by_height : List (ℕ × List ℕ)
  pub height_keys_sorted : Bool
  pub height_keys : List ℕ
  pub chain_tip : Option ℕ
  pub sync_tip : Option ℕ
  pub current_difficulty : Difficulty
  pub precalc_finished : Bool
  pub watch_block_template_id : List ℕ
  pub seen_blocks : List (List ℕ)
  pub calls : List ServerCall

-- What the state's operations call, which other modules model: the parameters, SideTemplateId,
-- verifyBlock, isLongerChain, and the difficulty of getDifficulty.
pub record Rules : Type 0 where
  pub consensus : Consensus
  pub template_id : PoolBlock → List ℕ
  pub verify_block : ChainState → ℕ → Verdict
  pub is_longer_chain : ChainState → Option ℕ → ℕ → Result (Bool × Bool)
  pub get_difficulty : ChainState → ℕ → Result Difficulty

-- A write through a pointer.
unfoldable pub write : (ℕ → PoolBlock) → ℕ → PoolBlock → ℕ → PoolBlock
write heap a b x = if x == a then b else heap x

unfoldable pub write_block : ChainState → ℕ → PoolBlock → ChainState
write_block s a b = record s { heap = write s.heap a b }

unfoldable pub find_id : List (List ℕ × ℕ) → List ℕ → Option ℕ
find_id [] id = none
find_id ((k, a) ∷ m) id = if bytes_eq k id then some a else find_id m id

unfoldable pub delete_id : List (List ℕ × ℕ) → List ℕ → List (List ℕ × ℕ)
delete_id [] id = []
delete_id ((k, a) ∷ m) id = if bytes_eq k id then delete_id m id else (k, a) ∷ delete_id m id

-- blocksByTemplateId.Put, of a key that is not present.
unfoldable pub put_id : List (List ℕ × ℕ) → List ℕ → ℕ → List (List ℕ × ℕ)
put_id m id a = (id, a) ∷ m

unfoldable pub find_height : List (ℕ × List ℕ) → ℕ → Option (List ℕ)
find_height [] h = none
find_height ((k, v) ∷ m) h = if k == h then some v else find_height m h

unfoldable pub delete_height : List (ℕ × List ℕ) → ℕ → List (ℕ × List ℕ)
delete_height [] h = []
delete_height ((k, v) ∷ m) h = if k == h then delete_height m h else (k, v) ∷ delete_height m h

unfoldable pub put_height : List (ℕ × List ℕ) → ℕ → List ℕ → List (ℕ × List ℕ)
put_height [] h w = (h, w) ∷ []
put_height ((k, v) ∷ m) h w = if k == h then (k, w) ∷ m else (k, v) ∷ put_height m h w

-- SideChain.getPoolBlockByTemplateId
unfoldable pub get_by_template_id : ChainState → List ℕ → Option ℕ
get_by_template_id s id = find_id s.blocks_by_template_id id

unfoldable pub list_of : Option (List ℕ) → List ℕ
list_of none = []
list_of (some v) = v

-- SideChain.getPoolBlocksByHeight; a nil slice is empty.
unfoldable pub get_by_height : ChainState → ℕ → List ℕ
get_by_height s h = list_of (find_height s.blocks_by_height h)

-- SideChain.getParent
unfoldable pub parent_of : ChainState → PoolBlock → Option ℕ
parent_of s b = elim b.iteration_cache [
  | none ↦ get_by_template_id s b.side.parent
  | some c ↦ c.parent
]

-- The blocks that getPoolBlockByTemplateId has for the hashes, up to the first that is missing.
unfoldable pub found_until_missing : ChainState → List (List ℕ) → List ℕ
found_until_missing s [] = []
found_until_missing s (id ∷ ids) = elim (get_by_template_id s id) [
  | none ↦ []
  | some u ↦ u ∷ found_until_missing s ids
]

-- The blocks that iteratorUncles calls its function with, whether it returns an error or not.
unfoldable pub iterated_uncles : ChainState → PoolBlock → List ℕ
iterated_uncles s b =
    if length b.side.uncles == 0
    then []
    else elim b.iteration_cache [ none ↦ found_until_missing s b.side.uncles | some c ↦ c.uncles ]

unfoldable pub same_address : Option ℕ → ℕ → Bool
same_address none a = false
same_address (some t) a = t == a

-- Of the pair of tests `WantBroadcast.Load() && !Broadcasted.Swap(true)`: the state afterwards, in
-- which the block at `a` was sent where `near` holds.
unfoldable pub broadcast_once : Bool → ChainState → ℕ → ChainState
broadcast_once near s a =
    let b = s.heap a in
    if b.want_broadcast
    then (if b.broadcasted then s else record (write_block s a (record b { broadcasted = true })) {
      calls = (if near then broadcast a ∷ s.calls else s.calls);
    })
    else s
