-- ===== src/SideChain/VerifyLoop/Falling.antt =====
-- The writes of verifyLoop keep parents below their children.
use p2pool_observer.Prelude.{ℕ, refl, inl, inr, Bool, true, false, List}
use p2pool_observer.SideChain.PoolBlock.{fill_parent_indices}
use p2pool_observer.SideChain.State.{
  ChainState, write_block, get_by_template_id, parent_of, broadcast_once, ServerCall,
}
use p2pool_observer.SideChain.State.Writes.{if_rule}
use p2pool_observer.SideChain.State.Falls.{
  Falls, CachesBelow, Falls-parent_of, write_block-Falls, write_note-Falls,
}
use p2pool_observer.SideChain.VerifyLoop.{
  mark, iteration_cache_of, fill_cache, block_at, fill_transaction_parent_indices, settle, announce,
}
use p2pool_observer.SideChain.VerifyLoop.Healthy.{cache_with-parent}

Falls-calls :
    (s : ChainState) (calls : List ServerCall) → Falls s → Falls (record s { calls = calls })
unfolding get_by_template_id
Falls-calls s calls h = record { found = h.found; cached = h.cached }

pub mark-Falls : (v i : Bool) (a : ℕ) (s : ChainState) → Falls s → Falls (mark v i a s)
unfolding mark
mark-Falls v i a s h =
    write_note-Falls s a (record (s.heap a) { verified = v; invalid = i }) refl refl h

fill_cache-Falls : (a : ℕ) (s : ChainState) → Falls s → Falls (fill_cache a s)
unfolding fill_cache CachesBelow iteration_cache_of
fill_cache-Falls a s h =
    write_block-Falls s a (record (s.heap a) { iteration_cache = iteration_cache_of s (s.heap a) })
      refl
      (λ c p e f. elim (cache_with-parent s (s.heap a) (parent_of s (s.heap a)) c p e f) [
        | inl found ↦ Falls-parent_of s a p h found
        | inr before ↦ h.cached a c p before f
      ])
      h

pub settle-Falls : (a : ℕ) (s : ChainState) → Falls s → Falls (settle a s)
unfolding settle fill_transaction_parent_indices
settle-Falls a s h =
    let t = fill_cache a (mark true false a s) in
    let b = t.heap a in
    let indices = (fill_parent_indices b (block_at t (parent_of t b))).0 in
    write_note-Falls t a
      (record b { main = record b.main { transaction_parent_indices = indices } }) refl refl
      (fill_cache-Falls a (mark true false a s) (mark-Falls true false a s h))

pub announce-Falls : (a : ℕ) (s : ChainState) → Falls s → Falls (announce a s)
unfolding announce broadcast_once
announce-Falls a s h =
    let b = record (s.heap a) { broadcasted = true } in
    Falls-calls _ _ (
      if_rule Falls (s.heap a).want_broadcast
        (if_rule Falls (s.heap a).broadcasted h
          (Falls-calls (write_block s a b) _ (write_note-Falls s a b refl refl h)))
        h)
