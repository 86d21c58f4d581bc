-- ===== src/SideChain/VerifyLoop/Healthy.antt =====
-- verifyLoop keeps a chain healthy: a block that it marks as verified and valid stands on such a block.
use p2pool_observer.Prelude.{
  ℕ, zero, suc, ◌+◌, ◌%◌, ◌^◌, ◌<◌, ◌≡◌, refl, ap, ◌∙◌, arith, ◌⊎◌, inl, inr, Bool, true, false,
  Option, none, some, List, [], ◌∷◌, ◌==◌, ltb, length, if◌then◌else◌, Bool-cases,
}
use p2pool_observer.SideChain.PoolBlock.{PoolBlock, IterationCache, fill_parent_indices}
use p2pool_observer.SideChain.Consensus.{uncle_block_depth}
use p2pool_observer.SideChain.Verdict.{
  Reason, Verdict, verified, fails, looping, unverifiable, invalid,
}
use p2pool_observer.SideChain.State.{ChainState, Rules, parent_of, found_until_missing}
use p2pool_observer.SideChain.State.Health.{
  Grown, note-Grown, content, IsGood, deep_limit, IsLawful, Stands, CachesParent, Healthy, Advance,
  Advance-refl, Advance-trans, Advance-calls,
}
use p2pool_observer.SideChain.State.Writes.{
  write_block-Advance, write_note-Advance, broadcast_once-Advance,
}
use p2pool_observer.SideChain.State.Outcomes.{
  OnOk, OnOk-any, OnOk-after, OnOk-then_result, parent_of-id,
}
use p2pool_observer.SideChain.Tip.Healthy.{update_chain_tip-Advance}
use p2pool_observer.SideChain.Tip.{update_chain_tip}
use p2pool_observer.SideChain.VerifyLoop.{
  mark, cache_with, iteration_cache_of, fill_cache, block_at, fill_transaction_parent_indices,
  settle, announce, LoopState, accept, judge, verify_one, start, verify_stack, verify_fuel,
  update_highest, verify_loop,
}

-- A verdict on a block that has none.
mark-Grown :
    (v i : Bool) (b : PoolBlock)
    → b.verified ≡ false
    → Grown b (record b { verified = v; invalid = i })
unfolding content
mark-Grown v i b fresh = record {
  same_content = refl;
  deeper = omega arith;
  still_verified = λ e. absurd (cc);
  still_judged = λ e. absurd (cc);
}

-- A cache that is filled has the parent that getParent finds, or is the one from before.
pub cache_with-parent :
    (s : ChainState) (b : PoolBlock) (found : Option ℕ) (c : IterationCache) (p : ℕ)
    → cache_with s b found ≡ some c
    → c.parent ≡ some p
    → (found ≡ some p) ⊎ (b.iteration_cache ≡ some c)
unfolding cache_with
cache_with-parent s b none c p e f = inr e
cache_with-parent s b (some q) c p e f =
    let uncles = found_until_missing s b.side.uncles in
    inl (known uncles (length uncles == length b.side.uncles) e)
  where
    known :
        (uncles : List ℕ) (t : Bool)
        → (if t then some (record { parent = some q; uncles = uncles }) else none) ≡ some c
        → some q ≡ some p
    known uncles true h =
        let cache : IterationCache = record { parent = some q; uncles = uncles } in
        let same : cache ≡ c = cc in ap (λ k. k.parent) same ∙ f
    known uncles false h = absurd (cc)

module _ (rules : Rules) (lawful : IsLawful rules) where
  mark_bad-Advance :
      (v i : Bool) (a : ℕ) (s : ChainState)
      → (s.heap a).verified ≡ false
      → (v ≡ false) ⊎ (i ≡ true)
      → Advance rules s (mark v i a s)
  unfolding mark CachesParent
  mark_bad-Advance v i a s fresh bad =
      write_block-Advance rules lawful s a (record (s.heap a) { verified = v; invalid = i })
        (mark-Grown v i (s.heap a) fresh)
        (λ h good. absurd (never bad good.is_verified good.is_valid)) (λ h. h.cached a)
    where
      never : (v ≡ false) ⊎ (i ≡ true) → v ≡ true → i ≡ false → ⊥
      never (inl e) f g = cc
      never (inr e) f g = cc

  -- An accepted block stands.
  stands :
      (a : ℕ) (s : ChainState)
      → Healthy rules s
      → ((s.heap a).side.height ≡ 0)
        ⊎ ((deep_limit rules.consensus < (s.heap a).depth)
            ⊎ ((p : ℕ) × (parent_of s (s.heap a) ≡ some p)
                × IsGood (s.heap p)
                × ((s.heap a).side.height ≡ ((s.heap p).side.height + 1) % 2 ^ 64)))
      → Stands rules s.heap (s.heap a)
  unfolding Stands
  stands a s h (inl genesis) = inl genesis
  stands a s h (inr (inl deep)) = inr (inl deep)
  stands a s h (inr (inr (p, found, good, height))) =
      inr (inr (p, good, parent_of-id rules s a p h found, height))

  mark_good-Advance :
      (a : ℕ) (s : ChainState)
      → (s.heap a).verified ≡ false
      → rules.verify_block s a ≡ verified
      → Advance rules s (mark true false a s)
  unfolding mark CachesParent Stands
  mark_good-Advance a s fresh accepted =
      write_block-Advance rules lawful s a (record (s.heap a) { verified = true; invalid = false })
        (mark-Grown true false (s.heap a) fresh)
        (λ h good. stands a s h (lawful.accepted_parent s a accepted)) (λ h. h.cached a)

  fill_cache-Advance : (a : ℕ) (s : ChainState) → Advance rules s (fill_cache a s)
  unfolding fill_cache CachesParent Stands iteration_cache_of content
  fill_cache-Advance a s =
      let b = record (s.heap a) { iteration_cache = iteration_cache_of s (s.heap a) } in
      write_block-Advance rules lawful s a b (note-Grown (s.heap a) b refl (omega arith) refl refl)
        (λ h good.
          h.trusted a (record { is_verified = good.is_verified; is_valid = good.is_valid }))
        (λ h c p e f. elim (cache_with-parent s (s.heap a) (parent_of s (s.heap a)) c p e f) [
          | inl found ↦ parent_of-id rules s a p h found
          | inr before ↦ h.cached a c p before f
        ])

  -- What settles a block after it was marked.
  pub settled-Advance : (a : ℕ) (s : ChainState) → Advance rules (mark true false a s) (settle a s)
  unfolding settle fill_transaction_parent_indices content
  settled-Advance a s =
      let t = fill_cache a (mark true false a s) in
      let b = t.heap a in
      let indices = (fill_parent_indices b (block_at t (parent_of t b))).0 in
      let b' = record b { main = record b.main { transaction_parent_indices = indices } } in
      Advance-trans rules (fill_cache-Advance a (mark true false a s)) (
        write_note-Advance rules lawful t a b' (note-Grown b b' refl (omega arith) refl refl) refl
          refl refl)

  settle-Advance :
      (a : ℕ) (s : ChainState)
      → (s.heap a).verified ≡ false
      → rules.verify_block s a ≡ verified
      → Advance rules s (settle a s)
  settle-Advance a s fresh accepted =
      Advance-trans rules (mark_good-Advance a s fresh accepted) (settled-Advance a s)

  pub announce-Advance : (a : ℕ) (s : ChainState) → Advance rules s (announce a s)
  unfolding announce
  announce-Advance a s =
      Advance-trans rules
        (broadcast_once-Advance rules lawful (ltb (s.heap a).depth uncle_block_depth) s a)
        (Advance-calls rules _ _)

  accept-Advance :
      (a : ℕ) (stack : List ℕ) (l : LoopState)
      → (l.state.heap a).verified ≡ false
      → rules.verify_block l.state a ≡ verified
      → OnOk (λ (r : List ℕ × LoopState). Advance rules l.state r.1.state) (accept rules a stack l)
  unfolding accept
  accept-Advance a stack l fresh accepted =
      OnOk-then_result (λ (r : Bool × Bool). Unit)
        (λ (r : List ℕ × LoopState). Advance rules l.state r.1.state)
        (rules.is_longer_chain (settle a l.state) l.highest a) _ (OnOk-any _)
        (λ r k.
          Advance-trans rules (settle-Advance a l.state fresh accepted)
            (announce-Advance a (settle a l.state)))

  judge-Advance :
      (target a : ℕ) (v : Verdict) (stack : List ℕ) (l : LoopState)
      → (l.state.heap a).verified ≡ false
      → rules.verify_block l.state a ≡ v
      → OnOk
          (λ (r : List ℕ × LoopState). Advance rules l.state r.1.state)
          (judge rules target a v stack l)
  unfolding judge
  judge-Advance target a verified stack l fresh e = accept-Advance a stack l fresh e
  judge-Advance target a (fails looping) stack l fresh e = tt
  judge-Advance target a (fails (invalid r)) stack l fresh e =
      mark_bad-Advance true true a l.state fresh (inr refl)
  judge-Advance target a (fails (unverifiable r)) stack l fresh e =
      mark_bad-Advance false false a l.state fresh (inl refl)

  pub verify_one-Advance :
      (target a : ℕ) (stack : List ℕ) (l : LoopState)
      → OnOk
          (λ (r : List ℕ × LoopState). Advance rules l.state r.1.state)
          (verify_one rules target a stack l)
  unfolding verify_one
  verify_one-Advance target a stack l = elim (Bool-cases (l.state.heap a).verified) [
    | inl done ↦ rw done (Advance-refl rules l.state)
    | inr fresh ↦
        rw fresh (judge-Advance target a (rules.verify_block l.state a) stack l fresh refl)
  ]

  pub verify_stack-Advance :
      (fuel target : ℕ) (stack : List ℕ) (l : LoopState)
      → OnOk
          (λ (m : LoopState). Advance rules l.state m.state)
          (verify_stack rules fuel target stack l)
  unfolding verify_stack
  verify_stack-Advance fuel target [] l = Advance-refl rules l.state
  verify_stack-Advance zero target (a ∷ stack) l = tt
  verify_stack-Advance (suc fuel) target (a ∷ stack) l =
      OnOk-then_result (λ (r : List ℕ × LoopState). Advance rules l.state r.1.state)
        (λ (m : LoopState). Advance rules l.state m.state) (verify_one rules target a stack l) _
        (verify_one-Advance target a stack l)
        (λ r f.
          OnOk-after rules (λ (m : LoopState). m.state) (verify_stack rules fuel target r.0 r.1) f
            (verify_stack-Advance fuel target r.0 r.1))

  module _ (now : ℕ) where
    update_highest-Advance :
        (highest : Option ℕ) (l : LoopState)
        → OnOk
            (λ (r : ChainState × Option Reason). Advance rules l.state r.0)
            (update_highest rules now highest l)
    unfolding update_highest
    update_highest-Advance none l = Advance-refl rules l.state
    update_highest-Advance (some a) l =
        OnOk-then_result (Advance rules l.state)
          (λ (r : ChainState × Option Reason). Advance rules l.state r.0)
          (update_chain_tip rules now a l.state) _
          (update_chain_tip-Advance rules lawful now a l.state) (λ s f. f)

    pub verify_loop-Advance :
        (a : ℕ) (s : ChainState)
        → OnOk (λ (r : ChainState × Option Reason). Advance rules s r.0) (verify_loop rules now a s)
    unfolding verify_loop start
    verify_loop-Advance a s =
        OnOk-then_result (λ (m : LoopState). Advance rules s m.state)
          (λ (r : ChainState × Option Reason). Advance rules s r.0)
          (verify_stack rules (verify_fuel s) a (a ∷ []) (start s)) _
          (verify_stack-Advance (verify_fuel s) a (a ∷ []) (start s))
          (λ m f.
            OnOk-after rules (λ (r : ChainState × Option Reason). r.0)
              (update_highest rules now m.highest m) f (update_highest-Advance m.highest m))
