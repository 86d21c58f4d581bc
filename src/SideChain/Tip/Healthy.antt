-- ===== src/SideChain/Tip/Healthy.antt =====
-- updateChainTip keeps a chain healthy: a tip is verified and valid.
use p2pool_observer.Prelude.{
  ℕ, ◌≡◌, refl, sym, arith, inl, inr, Bool, true, false, not, ◌||◌, Option, none, some, leb,
  Bool-cases,
}
use p2pool_observer.Codec.{Result, ok, err, panic, stuck}
use p2pool_observer.Types.Uint128.{Difficulty}
use p2pool_observer.Types.Difficulty.{zero_difficulty, same}
use p2pool_observer.SideChain.PoolBlock.{PoolBlock}
use p2pool_observer.SideChain.State.{ChainState, Rules, write_block, same_address}
use p2pool_observer.SideChain.State.Health.{
  note-Grown, content, IsGood, Grown-IsGood, IsLawful, Advance, Advance-refl, Advance-trans,
  Advance-fields,
}
use p2pool_observer.SideChain.State.Writes.{write_note-Advance, if_rule, broadcast_once-Advance}
use p2pool_observer.SideChain.State.Outcomes.{OnOk, OnOk-Advance}
use p2pool_observer.SideChain.Prune.Healthy.{prune_old_blocks-Advance}
use p2pool_observer.SideChain.Tip.{
  broadcast_tip, with_tip, store_tip, move_tip, choose_tip, update_chain_tip,
}

IsGood-block : (b : PoolBlock) → (not b.verified || b.invalid) ≡ false → IsGood b
IsGood-block b e = record { is_verified = (split _ _ e).0; is_valid = (split _ _ e).1 }
  where
    split : (v i : Bool) → (not v || i) ≡ false → (v ≡ true) × (i ≡ false)
    split true i h = (refl, h)
    split false i h = absurd (cc)

module _ (rules : Rules) (lawful : IsLawful rules) where
  Advance-tip :
      (s s' : ChainState) (a : ℕ)
      → IsGood (s.heap a)
      → s'.heap ≡ s.heap
      → s'.blocks_by_template_id ≡ s.blocks_by_template_id
      → s'.chain_tip ≡ some a
      → Advance rules s s'
  Advance-tip s s' a good e f g =
      let same : Advance rules s (record s' { chain_tip = s.chain_tip }) =
        Advance-fields rules s _ e f refl in
      record {
        grown = same.grown;
        healthy = λ h.
            let k = same.healthy h in
            record {
              indexed = k.indexed;
              cached = k.cached;
              trusted = k.trusted;
              tip_good = λ t tip. let at_tip : a ≡ t = cc in rw (sym at_tip) (rw e good);
            };
      }

  store_tip-Advance :
      (a : ℕ) (is_alternative : Bool) (d : Difficulty) (s : ChainState)
      → IsGood (s.heap a)
      → Advance rules s (store_tip a is_alternative d s)
  unfolding store_tip content
  store_tip-Advance a is_alternative d s good =
      let b = record (s.heap a) { want_broadcast = true } in
      let g = note-Grown (s.heap a) b refl (omega arith) refl refl in
      let wanted = write_note-Advance rules lawful s a b g refl refl refl in
      let still = Grown-IsGood (wanted.grown a) good in
      if_rule (Advance rules s) is_alternative
        (Advance-trans rules wanted (Advance-tip (write_block s a b) _ a still refl refl refl))
        (Advance-trans rules wanted (Advance-tip (write_block s a b) _ a still refl refl refl))

  with_tip-Advance : (tip : Option ℕ) (s : ChainState) → OnOk (Advance rules s) (with_tip tip s)
  unfolding with_tip
  with_tip-Advance none s = tt
  with_tip-Advance (some t) s = Advance-refl rules s

  module _ (now : ℕ) where
    move_tip-Advance :
        (a : ℕ) (is_alternative : Bool) (r : Result Difficulty) (s : ChainState)
        → IsGood (s.heap a)
        → OnOk (Advance rules s) (move_tip rules now a is_alternative r s)
    unfolding move_tip
    move_tip-Advance a is_alternative (ok d) s good =
        if_rule (OnOk (Advance rules s)) (same d zero_difficulty) (Advance-refl rules s) (
          OnOk-Advance rules _ (store_tip-Advance a is_alternative d s good)
            (prune_old_blocks-Advance rules lawful now (store_tip a is_alternative d s)))
    move_tip-Advance a is_alternative (err e) s good = Advance-refl rules s
    move_tip-Advance a is_alternative panic s good = tt
    move_tip-Advance a is_alternative stuck s good = tt

    choose_tip-Advance :
        (a : ℕ) (r : Result (Bool × Bool)) (s : ChainState)
        → IsGood (s.heap a)
        → OnOk (Advance rules s) (choose_tip rules now a r s)
    unfolding choose_tip
    choose_tip-Advance a (ok (true, is_alternative)) s good =
        move_tip-Advance a is_alternative (rules.get_difficulty s a) s good
    choose_tip-Advance a (ok (false, is_alternative)) s good = with_tip-Advance s.chain_tip s
    choose_tip-Advance a (err e) s good = tt
    choose_tip-Advance a panic s good = tt
    choose_tip-Advance a stuck s good = tt

    broadcast_tip-Advance :
        (a : ℕ) (s : ChainState) (r : Result ChainState)
        → OnOk (Advance rules s) r
        → OnOk (Advance rules s) (broadcast_tip a r)
    unfolding broadcast_tip
    broadcast_tip-Advance a s (ok t) f =
        Advance-trans rules f (broadcast_once-Advance rules lawful true t a)
    broadcast_tip-Advance a s (err e) f = tt
    broadcast_tip-Advance a s panic f = tt
    broadcast_tip-Advance a s stuck f = tt

    pub update_chain_tip-Advance :
        (a : ℕ) (s : ChainState) → OnOk (Advance rules s) (update_chain_tip rules now a s)
    unfolding update_chain_tip
    update_chain_tip-Advance a s =
        elim (Bool-cases (not (s.heap a).verified || (s.heap a).invalid)) [
          | inl bad ↦ rw bad (Advance-refl rules s)
          | inr good ↦ rw good (
              if_rule (OnOk (Advance rules s))
                (leb rules.consensus.chain_window_size (s.heap a).depth) (Advance-refl rules s)
                (if_rule (OnOk (Advance rules s)) (same_address s.chain_tip a)
                  (Advance-refl rules s)
                  (broadcast_tip-Advance a s _ (
                    choose_tip-Advance a (rules.is_longer_chain s s.chain_tip a) s
                      (IsGood-block (s.heap a) good)))))
        ]
