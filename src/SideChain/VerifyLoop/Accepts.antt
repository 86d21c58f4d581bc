-- ===== src/SideChain/VerifyLoop/Accepts.antt =====
-- verifyLoop gets an acceptable block verified.
use p2pool_observer.Prelude.{
  ℕ, suc, ◌+◌, ◌*◌, ◌≡◌, ap, arith, Bool, true, false, List, [], ◌∷◌, length,
}
use p2pool_observer.Codec.{ok}
use p2pool_observer.SideChain.Verdict.{verified}
use p2pool_observer.SideChain.State.{ChainState, Rules, write_block}
use p2pool_observer.SideChain.State.Health.{IsLawful, IsGood, Grown-IsGood, Advance, Advance-trans}
use p2pool_observer.SideChain.State.Writes.{write-same}
use p2pool_observer.SideChain.State.Falls.{Falls}
use p2pool_observer.SideChain.State.Outcomes.{OnOk, OnOk-any, OnOk-map, OnOk-get, OnOk-then_result}
use p2pool_observer.SideChain.VerifyLoop.{
  mark, settle, LoopState, accept, judge, verify_one, verify_stack, entries, verify_fuel, start,
}
use p2pool_observer.SideChain.VerifyLoop.Healthy.{
  settled-Advance, announce-Advance, verify_stack-Advance,
}
use p2pool_observer.SideChain.VerifyLoop.Ends.{IsAnswering, verify_stack-end}

fuel_suc : (n : ℕ) → 1 + n ≡ suc n
fuel_suc n = omega arith

module _ (rules : Rules) (lawful : IsLawful rules) where
  marked-IsGood : (a : ℕ) (s : ChainState) → IsGood ((mark true false a s).heap a)
  unfolding mark write_block
  marked-IsGood a s =
      let b = record (s.heap a) { verified = true; invalid = false } in
      let same = write-same s.heap a b in
      record { is_verified = ap (λ k. k.verified) same; is_valid = ap (λ k. k.invalid) same }

  accept-IsGood :
      (a : ℕ) (stack : List ℕ) (l : LoopState)
      → OnOk (λ (r : List ℕ × LoopState). IsGood (r.1.state.heap a)) (accept rules a stack l)
  unfolding accept
  accept-IsGood a stack l =
      OnOk-then_result (λ (r : Bool × Bool). Unit {0})
        (λ (r : List ℕ × LoopState). IsGood (r.1.state.heap a))
        (rules.is_longer_chain (settle a l.state) l.highest a) _ (OnOk-any _)
        (λ r k.
          Grown-IsGood
            ((Advance-trans rules (settled-Advance rules lawful a l.state)
                (announce-Advance rules lawful a (settle a l.state))).grown
              a)
            (marked-IsGood a l.state))

  verify_one-IsGood :
      (a : ℕ) (l : LoopState)
      → (l.state.heap a).verified ≡ false
      → rules.verify_block l.state a ≡ verified
      → OnOk (λ (r : List ℕ × LoopState). IsGood (r.1.state.heap a)) (verify_one rules a a [] l)
  unfolding verify_one judge
  verify_one-IsGood a l fresh accepted = rw (fresh, accepted) (accept-IsGood a [] l)

  verify_stack-IsGood :
      (fuel a : ℕ) (s : ChainState)
      → (s.heap a).verified ≡ false
      → rules.verify_block s a ≡ verified
      → OnOk
          (λ (l : LoopState). IsGood (l.state.heap a))
          (verify_stack rules (suc fuel) a (a ∷ []) (start s))
  unfolding verify_stack start
  verify_stack-IsGood fuel a s fresh accepted =
      OnOk-then_result (λ (r : List ℕ × LoopState). IsGood (r.1.state.heap a))
        (λ (l : LoopState). IsGood (l.state.heap a)) (verify_one rules a a [] (start s)) _
        (verify_one-IsGood a (start s) fresh accepted)
        (λ r good.
          OnOk-map
            (λ (m : LoopState) (f : Advance rules r.1.state m.state). Grown-IsGood (f.grown a) good)
            (verify_stack rules fuel a r.0 r.1) (verify_stack-Advance rules lawful fuel a r.0 r.1))

  -- In a state in which parents are below their children, the loop of verifyLoop that begins with a block
  -- without a verdict, which verifyBlock accepts, ends within its rounds with that block verified and
  -- valid, where verifyBlock and isLongerChain end in such states.
  pub verify_stack-accepts :
      (a : ℕ) (s : ChainState)
      → IsAnswering rules
      → Falls s
      → (s.heap a).verified ≡ false
      → rules.verify_block s a ≡ verified
      → (l : LoopState) × (verify_stack rules (verify_fuel s) a (a ∷ []) (start s) ≡ ok l)
        × IsGood (l.state.heap a)
  unfolding verify_fuel
  verify_stack-accepts a s answering falls fresh accepted =
      let (l, end) = verify_stack-end rules lawful answering a s falls in
      (
        l,
        end,
        OnOk-get (λ (m : LoopState). IsGood (m.state.heap a))
            (verify_stack rules (verify_fuel s) a (a ∷ []) (start s)) l
            (let n = suc (length (entries s.blocks_by_height)) in
              rw (fuel_suc (n * (3 * n))) (verify_stack-IsGood (n * (3 * n)) a s fresh accepted))
            end,
      )
