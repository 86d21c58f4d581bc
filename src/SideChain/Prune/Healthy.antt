-- ===== src/SideChain/Prune/Healthy.antt =====
-- pruneOldBlocks keeps a chain healthy.
use p2pool_observer.Prelude.{
  ℕ, zero, suc, ◌+◌, ◌-◌, refl, arith, inl, inr, Option, none, some, List, [], ◌∷◌, ◌==◌, ltb,
  length, take, drop, ◌++◌, Bool-cases,
}
use p2pool_observer.Codec.{Result, ok, err, panic, stuck}
use p2pool_observer.SideChain.State.{
  ChainState, Rules, write_block, delete_id, get_by_height, put_height, delete_height,
}
use p2pool_observer.SideChain.State.Health.{
  note-Grown, content, IsLawful, Stands, CachesParent, Advance, Advance-refl, Advance-trans,
  Advance-fields,
}
use p2pool_observer.SideChain.State.Writes.{write_block-Advance, if_rule}
use p2pool_observer.SideChain.State.Outcomes.{OnOk, OnOk-after, All-delete_id}
use p2pool_observer.SideChain.Prune.{
  is_known, is_old, prune_block, prune_height, key_at, prune_keys, finish_pruning,
  cleanup_seen_blocks, sort_keys, prune_below, prune_old_blocks, prune_distance,
}

module _ (rules : Rules) (lawful : IsLawful rules) (now : ℕ) where
  Advance-delete :
      (s : ChainState) (id : List ℕ)
      → Advance rules s (record s { blocks_by_template_id = delete_id s.blocks_by_template_id id })
  Advance-delete s id = record {
    grown = (Advance-refl rules s).grown;
    healthy = λ h. record {
      indexed = All-delete_id _ s.blocks_by_template_id id h.indexed;
      cached = h.cached;
      trusted = h.trusted;
      tip_good = h.tip_good;
    };
  }

  prune_block-Advance :
      (a : ℕ) (s : ChainState) (pruned : ℕ) → Advance rules s (prune_block rules now a s pruned).0
  unfolding prune_block CachesParent Stands content write_block
  prune_block-Advance a s pruned =
      let b = record (s.heap a) { iteration_cache = none } in
      let cleared =
        write_block-Advance rules lawful s a b
          (note-Grown (s.heap a) b refl (omega arith) refl refl)
          (λ h good.
            h.trusted a (record { is_verified = good.is_verified; is_valid = good.is_valid }))
          (λ h c p e f. absurd (cc)) in
      if_rule (λ (r : ChainState × ℕ). Advance rules s r.0)
        (is_known s (rules.template_id (s.heap a)))
        (Advance-trans rules cleared
          (Advance-delete (write_block s a b) (rules.template_id (s.heap a))))
        cleared

  prune_height-Advance :
      (v : List ℕ) (s : ChainState) (pruned : ℕ)
      → Advance rules s (prune_height rules now v s pruned).1.0
  unfolding prune_height
  prune_height-Advance [] s pruned = Advance-refl rules s
  prune_height-Advance (a ∷ v) s pruned =
      let later = (prune_height rules now v s pruned).1 in
      let before = prune_height-Advance v s pruned in
      if_rule (λ (r : List ℕ × (ChainState × ℕ)). Advance rules s r.1.0)
        (is_old rules now (later.0.heap a))
        (Advance-trans rules before (prune_block-Advance a later.0 later.1)) before

  prune_keys-Advance :
      (rounds i h : ℕ) (s : ChainState) (pruned : ℕ)
      → OnOk
          (λ (r : ChainState × ℕ). Advance rules s r.0)
          (prune_keys rules now rounds i h s pruned)
  unfolding prune_keys
  prune_keys-Advance zero i h s pruned = Advance-refl rules s
  prune_keys-Advance (suc rounds) i h s pruned =
      let height = key_at s.height_keys i in
      let stay = (prune_height rules now (get_by_height s height) s pruned).0 in
      let later = (prune_height rules now (get_by_height s height) s pruned).1 in
      let s' = later.0 in
      let rest = λ (t : ChainState) (f : Advance rules s' t).
        OnOk-after rules (λ (r : ChainState × ℕ). r.0)
          (prune_keys rules now rounds (i + 1) h t later.1)
          (Advance-trans rules (prune_height-Advance (get_by_height s height) s pruned) f)
          (prune_keys-Advance rounds (i + 1) h t later.1) in
      elim (Bool-cases (ltb h height)) [
        | inl above ↦ rw (above, prune_keys) (Advance-refl rules s)
        | inr below ↦ elim (Bool-cases (length stay == 0)) [
          | inr some_stay ↦
              rw (below, prune_keys, some_stay)
                (rest (record s' { blocks_by_height = put_height s'.blocks_by_height height stay })
                  (Advance-fields rules s' _ refl refl refl))
          | inl all_gone ↦ elim (Bool-cases (ltb i (length s'.height_keys))) [
            | inr outside ↦ rw (below, prune_keys, all_gone, outside) tt
            | inl inside ↦
                rw (below, prune_keys, all_gone, inside)
                  (rest
                    (record s' {
                      blocks_by_height = delete_height s'.blocks_by_height height;
                      height_keys = take i s'.height_keys ++ drop (i + 1) s'.height_keys;
                    })
                    (Advance-fields rules s' _ refl refl refl))
          ]
        ]
      ]

  finish_pruning-Advance :
      (s : ChainState) (r : Result (ChainState × ℕ))
      → OnOk (λ (k : ChainState × ℕ). Advance rules s k.0) r
      → OnOk (Advance rules s) (finish_pruning rules now r)
  unfolding finish_pruning cleanup_seen_blocks
  finish_pruning-Advance s (ok (t, pruned)) f = elim (Bool-cases (ltb 0 pruned)) [
    | inl some_pruned ↦
        rw some_pruned (Advance-trans rules f (Advance-fields rules t _ refl refl refl))
    | inr none_pruned ↦ rw none_pruned f
  ]
  finish_pruning-Advance s (err e) f = tt
  finish_pruning-Advance s panic f = tt
  finish_pruning-Advance s stuck f = tt

  sort_keys-Advance : (s : ChainState) → Advance rules s (sort_keys rules now s)
  unfolding sort_keys
  sort_keys-Advance s =
      if_rule (Advance rules s) s.height_keys_sorted (Advance-refl rules s)
        (Advance-fields rules s _ refl refl refl)

  prune_below-Advance :
      (tip : Option ℕ) (s : ChainState) → OnOk (Advance rules s) (prune_below rules now tip s)
  unfolding prune_below
  prune_below-Advance none s = Advance-refl rules s
  prune_below-Advance (some t) s =
      let distance = prune_distance rules.consensus in
      let sorted = sort_keys rules now s in
      elim (Bool-cases (ltb (s.heap t).side.height distance)) [
        | inl low ↦ rw (low, prune_below) (Advance-refl rules s)
        | inr high ↦
            rw (high, prune_below)
              (finish_pruning-Advance s _ (
                OnOk-after rules (λ (k : ChainState × ℕ). k.0)
                  (prune_keys rules now (length sorted.height_keys) 0
                    ((s.heap t).side.height - distance) sorted 0)
                  (sort_keys-Advance s)
                  (prune_keys-Advance (length sorted.height_keys) 0
                    ((s.heap t).side.height - distance) sorted 0)))
      ]

  pub prune_old_blocks-Advance :
      (s : ChainState) → OnOk (Advance rules s) (prune_old_blocks rules now s)
  unfolding prune_old_blocks
  prune_old_blocks-Advance s = prune_below-Advance s.chain_tip s
