-- ===== src/SideChain/AddBlock/Healthy.antt =====
-- AddPoolBlock keeps a chain healthy.
use p2pool_observer.Prelude.{ℕ, ◌≡◌, refl, false, not, ◌&&◌, Option, none, some, List, [], ◌==◌}
use p2pool_observer.Codec.{Result, ok, err, panic, stuck}
use p2pool_observer.Types.Hash.{bytes_eq}
use p2pool_observer.SideChain.PoolBlock.{pool_block_append_binary_flags}
use p2pool_observer.SideChain.Verdict.{Reason}
use p2pool_observer.SideChain.State.{ChainState, Rules, put_id}
use p2pool_observer.SideChain.State.Health.{
  IsLawful, Advance, Advance-refl, Advance-trans, Advance-fields,
}
use p2pool_observer.SideChain.State.Writes.{if_rule}
use p2pool_observer.SideChain.State.Outcomes.{OnOk, OnOk-get, OnOk-Advance, OnOk-then_result}
use p2pool_observer.SideChain.Prune.{is_known}
use p2pool_observer.SideChain.Tip.{update_chain_tip}
use p2pool_observer.SideChain.Tip.Healthy.{update_chain_tip-Advance}
use p2pool_observer.SideChain.VerifyLoop.Healthy.{verify_loop-Advance}
use p2pool_observer.SideChain.Depths.{update_depths}
use p2pool_observer.SideChain.Depths.Healthy.{update_depths-Advance}
use p2pool_observer.SideChain.AddBlock.{
  AddError, add_at, add_at_height, found_watched, store_sync_tip, insert_block, verify_added,
  add_encoded, add_pool_block,
}

module _ (rules : Rules) (lawful : IsLawful rules) where
  add_at-Advance :
      (a h : ℕ) (v : Option (List ℕ)) (s : ChainState) → Advance rules s (add_at a h v s)
  unfolding add_at
  add_at-Advance a h none s = Advance-fields rules s _ refl refl refl
  add_at-Advance a h (some v) s = Advance-fields rules s _ refl refl refl

  put_id-Advance :
      (a : ℕ) (s : ChainState)
      → Advance rules s (record s {
        blocks_by_template_id = put_id s.blocks_by_template_id (rules.template_id (s.heap a)) a;
      })
  unfolding put_id
  put_id-Advance a s = record {
    grown = (Advance-refl rules s).grown;
    healthy = λ h. record {
      indexed = (refl, h.indexed);
      cached = h.cached;
      trusted = h.trusted;
      tip_good = h.tip_good;
    };
  }

  found_watched-Advance :
      (a : ℕ) (id : List ℕ) (s : ChainState) → Advance rules s (found_watched a id s)
  unfolding found_watched
  found_watched-Advance a id s =
      if_rule (Advance rules s) (bytes_eq id s.watch_block_template_id)
        (Advance-fields rules s _ refl refl refl) (Advance-refl rules s)

  insert_block-Advance : (a : ℕ) (s : ChainState) → Advance rules s (insert_block rules a s)
  unfolding insert_block add_at_height
  insert_block-Advance a s = Advance-trans rules (put_id-Advance a s) (
      Advance-trans rules (found_watched-Advance a (rules.template_id (s.heap a)) _)
        (add_at-Advance a (s.heap a).side.height _ _))

  store_sync_tip-Advance : (a : ℕ) (s : ChainState) → Advance rules s (store_sync_tip a s)
  unfolding store_sync_tip
  store_sync_tip-Advance a s =
      if_rule (Advance rules s) (not (s.heap a).invalid && (s.heap a).depth == 0)
        (Advance-fields rules s _ refl refl refl) (Advance-refl rules s)

  module _ (now : ℕ) where
    abbrev first_state : ChainState × Option Reason → ChainState
    first_state r = r.0

    verify_added-Advance :
        (a : ℕ) (s : ChainState)
        → OnOk (λ r. Advance rules s (first_state r)) (verify_added rules now a s)
    unfolding verify_added
    verify_added-Advance a s =
        let P = OnOk (λ r. Advance rules s (first_state r)) in
        if_rule P (s.heap a).verified
          (if_rule P (s.heap a).invalid (Advance-refl rules s) (
            OnOk-then_result (Advance rules s) (λ r. Advance rules s (first_state r))
              (update_chain_tip rules now a s) _ (update_chain_tip-Advance rules lawful now a s)
              (λ t f. f)))
          (verify_loop-Advance rules lawful now a s)

    add_encoded-Advance :
        (fuel a : ℕ) (r : Result (List ℕ)) (s : ChainState)
        → OnOk
            (λ (k : ChainState × AddError). Advance rules s k.0)
            (add_encoded rules now fuel a r s)
    unfolding add_encoded
    add_encoded-Advance fuel a (err e) s = Advance-refl rules s
    add_encoded-Advance fuel a panic s = tt
    add_encoded-Advance fuel a stuck s = tt
    add_encoded-Advance fuel a (ok buf) s =
        OnOk-then_result (Advance rules s) (λ (k : ChainState × AddError). Advance rules s k.0)
          (update_depths rules now fuel a (insert_block rules a s)) _
          (OnOk-Advance rules _ (insert_block-Advance a s)
            (update_depths-Advance rules lawful now fuel a (insert_block rules a s)))
          (λ t f.
            OnOk-then_result (λ r. Advance rules t (first_state r))
              (λ (k : ChainState × AddError). Advance rules s k.0) (verify_added rules now a t) _
              (verify_added-Advance a t)
              (λ r g. Advance-trans rules f (Advance-trans rules g (store_sync_tip-Advance a r.0))))

    pub add_pool_block-Advance :
        (fuel a : ℕ) (s s' : ChainState) (e : AddError)
        → add_pool_block rules now fuel a s ≡ ok (s', e)
        → Advance rules s s'
    unfolding add_pool_block
    add_pool_block-Advance fuel a s s' e =
        let encoded = pool_block_append_binary_flags [] (s.heap a) false false in
        OnOk-get (λ (k : ChainState × AddError). Advance rules s k.0)
          (add_pool_block rules now fuel a s) (s', e)
          (if_rule (OnOk (λ (k : ChainState × AddError). Advance rules s k.0))
            (is_known s (rules.template_id (s.heap a))) (Advance-refl rules s)
            (add_encoded-Advance fuel a encoded s))
