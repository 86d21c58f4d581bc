-- ===== src/SideChain/External/Hard.antt =====
-- What the anti-spam measure of AddPoolBlockExternal demands of a share's difficulty.
use p2pool_observer.Prelude.{
  ℕ, zero, suc, ◌+◌, ◌%◌, ◌^◌, ◌<◌, ◌≡◌, ◌⊎◌, refl, inl, inr, Bool, true, false, not, Option, none,
  some, ltb, ltb→lt, Bool-cases, Option-cases,
}
use p2pool_observer.Codec.{Result, ok, err, panic, stuck}
use p2pool_observer.Types.Uint128.{Difficulty}
use p2pool_observer.Types.Difficulty.{cmp, mul64}
use p2pool_observer.Types.ProofOfWork.{at_least}
use p2pool_observer.Utils.NthElement.{then_result}
use p2pool_observer.SideChain.PoolBlock.{PoolBlock}
use p2pool_observer.SideChain.Verdict.{is_lt}
use p2pool_observer.SideChain.State.{ChainState, Rules, parent_of}
use p2pool_observer.SideChain.State.Outcomes.{OnOk}
use p2pool_observer.SideChain.External.{near_enough, height_of, too_low}

-- The blocks from a block down, by getParent.
pub data OnChain (s : ChainState) : ℕ → ℕ → Type 0 where
  here : {t : ℕ} → OnChain s t t
  below : {t p a : ℕ} → parent_of s (s.heap t) ≡ some p → OnChain s p a → OnChain s t a

module _ (rules : Rules) where
  -- A share `a` of the window below `tip_height`, on the chain of `t`, has at most the difficulty `d`.
  pub record IsMatched (s : ChainState) (tip_height : ℕ) (d : Difficulty) (t : ℕ) : Type 0 where
    pub share : ℕ
    pub is_on_chain : OnChain s t share
    pub is_recent :
        tip_height < ((s.heap share).side.height + rules.consensus.chain_window_size) % 2 ^ 64
    pub is_matched : at_least (cmp d (s.heap share).side.difficulty) ≡ true

  -- The difficulty of a share is at least the current one, or twice it is at least that of a share of the
  -- window of the tip.
  unfoldable pub IsHard : ChainState → PoolBlock → Type 0
  IsHard s b =
      (is_lt (cmp b.side.difficulty s.current_difficulty) ≡ false)
      ⊎ ((t : ℕ) × (s.chain_tip ≡ some t)
          × IsMatched s (s.heap t).side.height (mul64 b.side.difficulty 2) t)

  lower-IsMatched :
      (s : ChainState) (h : ℕ) (d : Difficulty) (t p : ℕ)
      → parent_of s (s.heap t) ≡ some p
      → IsMatched s h d p
      → IsMatched s h d t
  lower-IsMatched s h d t p e m = record {
    share = m.share;
    is_on_chain = OnChain.below e m.is_on_chain;
    is_recent = m.is_recent;
    is_matched = m.is_matched;
  }

  near_enough-IsMatched :
      (fuel : ℕ) (s : ChainState) (h : ℕ) (d : Difficulty) (t : ℕ)
      → near_enough rules fuel s h d (some t) ≡ ok true
      → IsMatched s h d t
  unfolding near_enough
  near_enough-IsMatched zero s h d t e = absurd (cc)
  near_enough-IsMatched (suc fuel) s h d t e =
      let tmp = s.heap t in
      elim (Bool-cases (ltb h ((tmp.side.height + rules.consensus.chain_window_size) % 2 ^ 64))) [
        | inr old ↦ absurd (let e' = rw (near_enough, old) at e in ok_ne e')
        | inl recent ↦ elim (Bool-cases (at_least (cmp d tmp.side.difficulty))) [
          | inl matched ↦ record {
            share = t;
            is_on_chain = OnChain.here;
            is_recent = ltb→lt _ _ recent;
            is_matched = matched;
          }
          | inr harder ↦ elim (Option-cases (parent_of s tmp)) [
            | inl missing ↦
                absurd (nothing fuel s h d (rw (near_enough, recent, harder, missing) at e))
            | inr (p, found) ↦
                lower-IsMatched s h d t p found (
                  near_enough-IsMatched fuel s h d p (rw (near_enough, recent, harder, found) at e))
          ]
        ]
      ]
    where
      ok_ne : ok false ≡ ok true → ⊥
      ok_ne f = cc

      nothing :
          (fuel : ℕ) (s : ChainState) (h : ℕ) (d : Difficulty)
          → near_enough rules fuel s h d none ≡ ok true
          → ⊥
      nothing zero s h d f = cc
      nothing (suc fuel) s h d f = cc

  near_enough-IsHard :
      (n : ℕ) (s : ChainState) (b : PoolBlock) (tip : Option ℕ)
      → s.chain_tip ≡ tip
      → (near : Bool)
      → near_enough rules (suc n) s (height_of rules s tip) (mul64 b.side.difficulty 2) tip
        ≡ ok near
      → not near ≡ false
      → IsHard s b
  unfolding near_enough height_of IsHard
  near_enough-IsHard n s b tip at false e f = absurd (cc)
  near_enough-IsHard n s b none at true e f = absurd (cc)
  near_enough-IsHard n s b (some t) at true e f = inr (
    t,
    at,
    near_enough-IsMatched (suc n) s (s.heap t).side.height (mul64 b.side.difficulty 2) t e,
  )

  answered-IsHard :
      (n : ℕ) (s : ChainState) (b : PoolBlock) (r : Result Bool)
      → near_enough rules
          (suc n)
          s
          (height_of rules s s.chain_tip)
          (mul64 b.side.difficulty 2)
          s.chain_tip
        ≡ r
      → OnOk (λ (low : Bool). low ≡ false → IsHard s b) (then_result r (λ near. ok (not near)))
  unfolding then_result
  answered-IsHard n s b (ok near) e = near_enough-IsHard n s b s.chain_tip refl near e
  answered-IsHard n s b (err x) e = tt
  answered-IsHard n s b panic e = tt
  answered-IsHard n s b stuck e = tt

  current-IsHard :
      (s : ChainState) (b : PoolBlock)
      → is_lt (cmp b.side.difficulty s.current_difficulty) ≡ false
      → IsHard s b
  unfolding IsHard
  current-IsHard s b e = inl e

  -- A share that is not too low is hard enough.
  pub too_low-IsHard :
      (s : ChainState) (b : PoolBlock)
      → OnOk (λ (low : Bool). low ≡ false → IsHard s b) (too_low rules s b)
  unfolding too_low
  too_low-IsHard s b = elim (Bool-cases (is_lt (cmp b.side.difficulty s.current_difficulty))) [
    | inr enough ↦ rw (too_low, enough) (λ e. current-IsHard s b enough)
    | inl less ↦ rw (too_low, less) (answered-IsHard rules.consensus.chain_window_size s b _ refl)
  ]
