-- ===== src/SideChain/State/Falls.antt =====
-- States in which every parent is below its child, and the writes that keep them so.
use p2pool_observer.Prelude.{ℕ, ◌<◌, ◌≡◌, refl, sym, ap, ◌∙◌, inl, inr, some, Option-cases}
use p2pool_observer.SideChain.PoolBlock.{PoolBlock, IterationCache}
use p2pool_observer.SideChain.State.{ChainState, write, write_block, get_by_template_id, parent_of}
use p2pool_observer.SideChain.State.Writes.{write-rule}

-- The parent that a block has in its cache is below it.
unfoldable pub CachesBelow : (ℕ → PoolBlock) → PoolBlock → Type 0
CachesBelow heap b =
    (c : IterationCache) (p : ℕ)
    → b.iteration_cache ≡ some c
    → c.parent ≡ some p
    → (heap p).side.height < b.side.height

-- The parents of all blocks are below them: those that the chain finds by their ids and those in caches.
pub record Falls (s : ChainState) : Type 0 where
  pub found :
      (a p : ℕ)
      → get_by_template_id s (s.heap a).side.parent ≡ some p
      → (s.heap p).side.height < (s.heap a).side.height
  pub cached : (a : ℕ) → CachesBelow s.heap (s.heap a)

pub Falls-parent_of :
    (s : ChainState) (a p : ℕ)
    → Falls s
    → parent_of s (s.heap a) ≡ some p
    → (s.heap p).side.height < (s.heap a).side.height
unfolding parent_of CachesBelow
Falls-parent_of s a p h e = elim (Option-cases (s.heap a).iteration_cache) [
  | inl uncached ↦ h.found a p (rw (uncached) at e)
  | inr (c, cached) ↦ h.cached a c p cached (rw (cached) at e)
]

-- A block may be written with its side data, and a cached parent below it.
pub write_block-Falls :
    (s : ChainState) (a : ℕ) (b : PoolBlock)
    → b.side ≡ (s.heap a).side
    → CachesBelow s.heap b
    → Falls s
    → Falls (write_block s a b)
unfolding write_block CachesBelow get_by_template_id
write_block-Falls s a b same caches h = record {
  found = λ x p e. rw (height x, height p) (h.found x p (rw (sides x) at e));
  cached =
      write-rule (λ x k. CachesBelow (write s.heap a b) k) s.heap a b
        (λ c p e f. rw (height p) (caches c p e f))
        (λ x c p e f. rw (height p) (h.cached x c p e f));
}
  where
    sides : (x : ℕ) → (write s.heap a b x).side ≡ (s.heap x).side
    sides = write-rule (λ x k. k.side ≡ (s.heap x).side) s.heap a b same (λ x. refl)

    height : (x : ℕ) → (write s.heap a b x).side.height ≡ (s.heap x).side.height
    height x = ap (λ d. d.height) (sides x)

-- Notes that leave the cache as it is.
pub write_note-Falls :
    (s : ChainState) (a : ℕ) (b : PoolBlock)
    → b.side ≡ (s.heap a).side
    → b.iteration_cache ≡ (s.heap a).iteration_cache
    → Falls s
    → Falls (write_block s a b)
unfolding CachesBelow
write_note-Falls s a b same cache h =
    write_block-Falls s a b same
      (λ c p e f. rw (ap (λ d. d.height) same) (h.cached a c p (sym cache ∙ e) f)) h
