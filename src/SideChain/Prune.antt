-- ===== src/SideChain/Prune.antt =====
-- SideChain.pruneOldBlocks of p2pool/sidechain/sidechain.go, and cleanupSeenBlocks. `now` is the time.
pub mod Healthy
use p2pool_observer.Prelude.{
  ℕ, zero, suc, ◌+◌, ◌-◌, ◌*◌, ◌/◌, ◌%◌, ◌^◌, Bool, true, false, ◌||◌, Option, none, some, List, [],
  ◌∷◌, ◌++◌, ◌==◌, ltb, leb, if◌then◌else◌, length, get_elem?, take, drop,
}
use p2pool_observer.Codec.{Result, ok, panic}
use p2pool_observer.SideChain.PoolBlock.{PoolBlock, IterationCache}
use p2pool_observer.SideChain.Consensus.{Consensus, block_time}
use p2pool_observer.SideChain.State.{
  ChainState, Rules, write_block, find_id, delete_id, get_by_template_id, get_by_height,
  delete_height, put_height,
}

unfoldable pub prune_distance : Consensus → ℕ
prune_distance c = (c.chain_window_size * 2 + block_time / c.target_block_time) % 2 ^ 64

unfoldable pub prune_delay : Consensus → ℕ
prune_delay c = c.chain_window_size * 4 * c.target_block_time % 2 ^ 64

-- FullId.TemplateId
unfoldable pub template_id_of_full_id : List ℕ → List ℕ
template_id_of_full_id id = take 32 id

unfoldable pub is_known : ChainState → List ℕ → Bool
is_known s id = elim (get_by_template_id s id) [ none ↦ false | some a ↦ true ]

unfoldable pub known_seen : ChainState → List (List ℕ) → List (List ℕ)
known_seen s [] = []
known_seen s (k ∷ ks) =
    if is_known s (template_id_of_full_id k) then k ∷ known_seen s ks else known_seen s ks

-- SideChain.cleanupSeenBlocks
unfoldable pub cleanup_seen_blocks : ChainState → ChainState
cleanup_seen_blocks s = record s { seen_blocks = known_seen s s.seen_blocks }

-- slices.Sort
unfoldable pub insert : ℕ → List ℕ → List ℕ
insert h [] = h ∷ []
insert h (k ∷ ks) = if leb h k then h ∷ k ∷ ks else k ∷ insert h ks

unfoldable pub sort : List ℕ → List ℕ
sort [] = []
sort (h ∷ hs) = insert h (sort hs)

-- An element of the array under a slice: slices.Delete has cleared what is behind the slice's end.
unfoldable pub key_at : List ℕ → ℕ → ℕ
key_at keys i = elim (get_elem? keys i) [ none ↦ 0 | some h ↦ h ]

module _ (rules : Rules) (now : ℕ) where
  -- The test that a block goes.
  unfoldable pub is_old : PoolBlock → Bool
  is_old b =
      leb (prune_distance rules.consensus) b.depth
      || leb ((b.local_timestamp + prune_delay rules.consensus) % 2 ^ 64) now

  -- A block that goes, with the number of blocks that were pruned.
  unfoldable pub prune_block : ℕ → ChainState → ℕ → ChainState × ℕ
  prune_block a s pruned =
      let b = s.heap a in
      let id = rules.template_id b in
      let cleared = write_block s a (record b { iteration_cache = none }) in
      if is_known s id
      then (
        record cleared { blocks_by_template_id = delete_id s.blocks_by_template_id id },
        pruned + 1,
      )
      else (cleared, pruned)

  -- The loop over the blocks of a height, from the last one on: those that stay, the state and the
  -- number.
  unfoldable pub prune_height : List ℕ → ChainState → ℕ → List ℕ × (ChainState × ℕ)
  prune_height [] s pruned = ([], (s, pruned))
  prune_height (a ∷ v) s pruned =
      let (stay, later) = prune_height v s pruned in
      if is_old (later.0.heap a) then (stay, prune_block a later.0 later.1) else (a ∷ stay, later)

  -- The loop over the keys from an index on, with the rounds that are left: it goes over the array that
  -- the slice had at its start, while slices.Delete moves the array's elements.
  unfoldable pub prune_keys : ℕ → ℕ → ℕ → ChainState → ℕ → Result (ChainState × ℕ)
  prune_keys zero i h s pruned = ok (s, pruned)
  prune_keys (suc rounds) i h s pruned =
      let height = key_at s.height_keys i in
      elim (ltb h height) [
        | true ↦ ok (s, pruned)
        | false ↦
            let (stay, later) = prune_height (get_by_height s height) s pruned in
            let s' = later.0 in
            elim (length stay == 0) [
              | false ↦
                  prune_keys rounds (i + 1) h
                    (record s' { blocks_by_height = put_height s'.blocks_by_height height stay })
                    later.1
              | true ↦ elim (ltb i (length s'.height_keys)) [
                | false ↦ panic
                | true ↦
                    prune_keys rounds (i + 1) h
                      (record s' {
                        blocks_by_height = delete_height s'.blocks_by_height height;
                        height_keys = take i s'.height_keys ++ drop (i + 1) s'.height_keys;
                      })
                      later.1
              ]
            ]
      ]

  unfoldable pub finish_pruning : Result (ChainState × ℕ) → Result ChainState
  finish_pruning (ok (s, pruned)) =
      if ltb 0 pruned then ok (cleanup_seen_blocks (record s { precalc_finished = true })) else ok s
  finish_pruning (Result.err e) = Result.err e
  finish_pruning panic = panic
  finish_pruning Result.stuck = Result.stuck

  unfoldable pub sort_keys : ChainState → ChainState
  sort_keys s =
      if s.height_keys_sorted
      then s
      else record s { height_keys = sort s.height_keys; height_keys_sorted = true }

  -- Below the tip.
  unfoldable pub prune_below : Option ℕ → ChainState → Result ChainState
  prune_below none s = ok s
  prune_below (some t) s =
      let tip = s.heap t in
      elim (ltb tip.side.height (prune_distance rules.consensus)) [
        | true ↦ ok s
        | false ↦
            let sorted = sort_keys s in
            finish_pruning (
              prune_keys (length sorted.height_keys) 0
                (tip.side.height - prune_distance rules.consensus) sorted 0)
      ]

  -- SideChain.pruneOldBlocks
  unfoldable pub prune_old_blocks : ChainState → Result ChainState
  prune_old_blocks s = prune_below s.chain_tip s
