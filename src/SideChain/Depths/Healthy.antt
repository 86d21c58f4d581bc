-- ===== src/SideChain/Depths/Healthy.antt =====
-- updateDepths keeps a chain healthy: depths only grow.
use p2pool_observer.Prelude.{
  ℕ, zero, suc, ◌+◌, ◌-◌, ◌*◌, ◌%◌, ◌^◌, refl, arith, inl, inr, Bool, true, false, not, ◌&&◌, ◌||◌,
  Option, none, some, List, [], ◌∷◌, ◌==◌, ltb, ltb→lt, leb, if◌then◌else◌, Bool-cases,
}
use p2pool_observer.SideChain.PoolBlock.{contains_hash}
use p2pool_observer.SideChain.Consensus.{uncle_block_depth}
use p2pool_observer.SideChain.Verdict.{Reason}
use p2pool_observer.SideChain.State.{ChainState, Rules, get_by_height, parent_of, iterated_uncles}
use p2pool_observer.SideChain.State.Health.{
  note-Grown, content, IsLawful, Advance, Advance-refl, Advance-trans,
}
use p2pool_observer.SideChain.State.Writes.{write_note-Advance, if_rule}
use p2pool_observer.SideChain.State.Outcomes.{OnOk, OnOk-Advance, OnOk-then_result}
use p2pool_observer.SideChain.VerifyLoop.{verify_loop}
use p2pool_observer.SideChain.VerifyLoop.Healthy.{verify_loop-Advance}
use p2pool_observer.SideChain.Depths.{
  update_depth, Progress, continues, returns, is_child, index_is_not_one, depth_above, depth_from,
  own_depth, update_child, update_children, update_above, update_parent, update_uncles, and_then,
  update_near, verify_deep, depths_loop, update_depths,
}

abbrev state_of : Progress → ChainState
state_of (continues s stack) = s
state_of (returns s) = s

module _ (rules : Rules) (lawful : IsLawful rules) where
  abbrev After : ChainState → Progress → Type 0
  After s p = Advance rules s (state_of p)

  After-trans : {s t : ChainState} (p : Progress) → Advance rules s t → After t p → After s p
  After-trans p f g = Advance-trans rules f g

  update_depth-Advance : (s : ChainState) (a depth : ℕ) → Advance rules s (update_depth s a depth)
  unfolding update_depth content
  update_depth-Advance s a depth = elim (Bool-cases (ltb (s.heap a).depth depth)) [
    | inl more ↦
        let b = record (s.heap a) { depth = depth } in
        let above = ltb→lt (s.heap a).depth depth more in
        rw more (
          write_note-Advance rules lawful s a b
            (note-Grown (s.heap a) b refl (omega (arith, above)) refl refl) refl refl refl)
    | inr less ↦ rw less (Advance-refl rules s)
  ]

  update_if :
      (t : Bool) (s : ChainState) (a depth : ℕ)
      → Advance rules s (if t then update_depth s a depth else s)
  update_if t s a depth =
      if_rule (Advance rules s) t (update_depth-Advance s a depth) (Advance-refl rules s)

  depth_from-After : (a i : ℕ) (v : List ℕ) (s : ChainState) → After s (depth_from rules a i v s)
  unfolding depth_from
  depth_from-After a i [] s = Advance-refl rules s
  depth_from-After a i (child ∷ v) s =
      let from_child = is_child rules (s.heap child) (s.heap a) in
      let s1 = if from_child then update_depth s a (depth_above rules s child) else s in
      let t = index_is_not_one rules (s1.heap child) (s1.heap a) in
      let s2 = if t then update_depth s1 a (depth_above rules s1 child) else s1 in
      if_rule (After s) (from_child && not (i == 1)) (Advance-refl rules s) (
        Advance-trans rules (update_if from_child s a (depth_above rules s child)) (
          Advance-trans rules (update_if t s1 a (depth_above rules s1 child))
            (depth_from-After a i v s2)))

  and_then-After :
      (s : ChainState) (p : Progress) (f : ChainState → List ℕ → Progress)
      → After s p
      → ((t : ChainState) (stack : List ℕ) → After t (f t stack))
      → After s (and_then p f)
  unfolding and_then
  and_then-After s (returns t) f g k = g
  and_then-After s (continues t stack) f g k = Advance-trans rules g (k t stack)

  own_depth-After : (n i a : ℕ) (s : ChainState) → After s (own_depth rules n i a s)
  unfolding own_depth
  own_depth-After zero i a s = Advance-refl rules s
  own_depth-After (suc n) i a s =
      let v = get_by_height s (((s.heap a).side.height + i) % 2 ^ 64) in
      and_then-After s (depth_from rules a i v s) _ (depth_from-After a i v s)
        (λ t stack. own_depth-After n (i + 1) a t)

  update_child-After :
      (a depth i child : ℕ) (s : ChainState) (stack : List ℕ)
      → After s (update_child rules a depth i child s stack)
  unfolding update_child
  update_child-After a depth i child s stack =
      let from_child = is_child rules (s.heap child) (s.heap a) in
      let t = from_child && ltb 0 depth in
      let s1 = if t then update_depth s child (depth - 1) else s in
      let u =
        contains_hash (s1.heap child).side.uncles (rules.template_id (s1.heap a)) && ltb i depth in
      if_rule (After s) (from_child && not (i == 1)) (Advance-refl rules s)
        (Advance-trans rules (update_if t s child (depth - 1)) (update_if u s1 child (depth - i)))

  update_children-After :
      (a depth i : ℕ) (v : List ℕ) (s : ChainState) (stack : List ℕ)
      → After s (update_children rules a depth i v s stack)
  unfolding update_children
  update_children-After a depth i [] s stack = Advance-refl rules s
  update_children-After a depth i (child ∷ v) s stack =
      and_then-After s (update_child rules a depth i child s stack) _
        (update_child-After a depth i child s stack)
        (λ t stack'. update_children-After a depth i v t stack')

  update_above-After :
      (n i a depth : ℕ) (s : ChainState) (stack : List ℕ)
      → After s (update_above rules n i a depth s stack)
  unfolding update_above
  update_above-After zero i a depth s stack = Advance-refl rules s
  update_above-After (suc n) i a depth s stack =
      let v = get_by_height s (((s.heap a).side.height + i) % 2 ^ 64) in
      and_then-After s (update_children rules a depth i v s stack) _
        (update_children-After a depth i v s stack)
        (λ t stack'. update_above-After n (i + 1) a depth t stack')

  update_parent-After :
      (a depth : ℕ) (o : Option ℕ) (s : ChainState) (stack : List ℕ)
      → After s (update_parent rules a depth o s stack)
  unfolding update_parent
  update_parent-After a depth none s stack = Advance-refl rules s
  update_parent-After a depth (some p) s stack =
      if_rule (After s) (not (((s.heap p).side.height + 1) % 2 ^ 64 == (s.heap a).side.height))
        (Advance-refl rules s)
        (if_rule (After s) (ltb (s.heap p).depth ((depth + 1) % 2 ^ 64))
          (update_depth-Advance s p ((depth + 1) % 2 ^ 64)) (Advance-refl rules s))

  update_uncles-After :
      (a depth : ℕ) (us : List ℕ) (asked : Bool) (s : ChainState) (stack : List ℕ)
      → After s (update_uncles rules a depth us asked s stack)
  unfolding update_uncles
  update_uncles-After a depth [] asked s stack =
      if_rule (After s) asked (Advance-refl rules s) (Advance-refl rules s)
  update_uncles-After a depth (u ∷ us) asked s stack =
      let height = (s.heap a).side.height in
      let uncle_height = (s.heap u).side.height in
      let d = (depth + (height - uncle_height)) % 2 ^ 64 in
      if_rule (After s)
        (leb height uncle_height || ltb ((uncle_height + uncle_block_depth) % 2 ^ 64) height)
        (update_uncles-After a depth us true s stack)
        (if_rule (After s) (ltb (s.heap u).depth d)
          (Advance-trans rules (update_depth-Advance s u d)
            (update_uncles-After a depth us asked (update_depth s u d) (u ∷ stack)))
          (update_uncles-After a depth us asked s stack))

  update_near-After :
      (a depth : ℕ) (s : ChainState) (stack : List ℕ) → After s (update_near rules a depth s stack)
  unfolding update_near
  update_near-After a depth s stack =
      and_then-After s (update_above rules uncle_block_depth 1 a depth s stack) _
        (update_above-After uncle_block_depth 1 a depth s stack)
        (λ t stack1.
          let p = parent_of t (t.heap a) in
          and_then-After t (update_parent rules a depth p t stack1) _
            (update_parent-After a depth p t stack1)
            (λ u stack2. update_uncles-After a depth (iterated_uncles u (u.heap a)) false u stack2))

  module _ (now : ℕ) where
    verify_deep-Advance :
        (a : ℕ) (s : ChainState) → OnOk (Advance rules s) (verify_deep rules now a s)
    unfolding verify_deep
    verify_deep-Advance a s =
        let b = s.heap a in
        if_rule (OnOk (Advance rules s))
          (not b.verified
            && (leb (rules.consensus.chain_window_size * 2 % 2 ^ 64) b.depth || b.side.height == 0))
          (OnOk-then_result (λ (r : ChainState × Option Reason). Advance rules s r.0)
            (Advance rules s) (verify_loop rules now a s) _
            (verify_loop-Advance rules lawful now a s) (λ r f. f))
          (Advance-refl rules s)

    depths_loop-Advance :
        (fuel : ℕ) (p : Progress) → OnOk (Advance rules (state_of p)) (depths_loop rules now fuel p)
    unfolding depths_loop
    depths_loop-Advance fuel (returns s) = Advance-refl rules s
    depths_loop-Advance fuel (continues s []) = Advance-refl rules s
    depths_loop-Advance zero (continues s (a ∷ stack)) = tt
    depths_loop-Advance (suc fuel) (continues s (a ∷ stack)) =
        OnOk-then_result (Advance rules s) (Advance rules s) (verify_deep rules now a s) _
          (verify_deep-Advance a s)
          (λ t f.
            let p = update_near rules a (s.heap a).depth t stack in
            OnOk-Advance rules (depths_loop rules now fuel p)
              (Advance-trans rules f (update_near-After a (s.heap a).depth t stack))
              (depths_loop-Advance fuel p))

    pub update_depths-Advance :
        (fuel a : ℕ) (s : ChainState) → OnOk (Advance rules s) (update_depths rules now fuel a s)
    unfolding update_depths
    update_depths-Advance fuel a s =
        let p =
          and_then (own_depth rules uncle_block_depth 1 a s) (λ s' stack. continues s' (a ∷ [])) in
        OnOk-Advance rules (depths_loop rules now fuel p)
          (and_then-After s (own_depth rules uncle_block_depth 1 a s) _
            (own_depth-After uncle_block_depth 1 a s) (λ t stack. Advance-refl rules t))
          (depths_loop-Advance fuel p)
