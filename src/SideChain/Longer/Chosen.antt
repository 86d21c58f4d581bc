-- ===== src/SideChain/Longer/Chosen.antt =====
-- The candidates that IsLongerChain chooses.
use Prim.Native.Nat.{compare, Ordering}
use p2pool_observer.Prelude.{
  ℕ, ◌+◌, ◌*◌, ◌<◌, ◌≤◌, ◌≡◌, refl, sym, subst, ◌∙◌, arith, Bool, true, false, not, ◌||◌, inl, inr,
  Option, none, some, List, ltb, length, Bool-cases, Option-cases,
}
use p2pool_observer.Codec.{Result, ok, stuck}
use p2pool_observer.Types.Uint128.{Difficulty, IsU128, value}
use p2pool_observer.Types.Difficulty.{cmp}
use p2pool_observer.Types.Difficulty.Arithmetic.{cmp-compare}
use p2pool_observer.Types.Hash.{zero_hash}
use p2pool_observer.Types.Hash.Order.{bytes_eq_refl}
use p2pool_observer.SideChain.PoolBlock.{PoolBlock}
use p2pool_observer.SideChain.Consensus.{Consensus}
use p2pool_observer.SideChain.Verdict.{is_lt}
use p2pool_observer.SideChain.Uncles.Ancestors.{is_lt-lt}
use p2pool_observer.SideChain.Longer.{
  Tally, descend, common_parent, on_one_chain, tally_loop, no_tally, overtakes, is_longer_chain,
}

module _ (heap : ℕ → PoolBlock) (find : List ℕ → Option PoolBlock)
    (main_height : List ℕ → Option ℕ) where
  itself : (b : PoolBlock) → on_one_chain heap find main_height b b ≡ some true
  unfolding on_one_chain descend common_parent
  itself b =
      let here : ltb b.side.height b.side.height ≡ false = ground arith in
      rw (here, on_one_chain, here, common_parent, bytes_eq_refl b.side.parent) refl

  not_below : (d : Difficulty) → is_lt (cmp d d) ≡ false
  unfolding is_lt cmp
  not_below d = ground arith

  -- A block is never a longer chain than itself: IsLongerChain returns, and says no.
  is_longer_chain-itself :
      (c : Consensus) (b : PoolBlock)
      → is_longer_chain heap find main_height c (some b) (some b) ≡ ok (false, false)
  unfolding is_longer_chain
  is_longer_chain-itself c b = elim (Bool-cases (not b.verified || b.invalid)) [
    | inl bad ↦ rw bad refl
    | inr good ↦ rw (good, is_longer_chain, itself b, not_below b.side.cumulative_difficulty) refl
  ]

  -- Why a candidate is chosen over a block.
  pub data Chosen (c : Consensus) (b candidate : PoolBlock) : Bool → Type 0 where
    one_chain :
        on_one_chain heap find main_height b candidate ≡ some true
        → value b.side.cumulative_difficulty < value candidate.side.cumulative_difficulty
        → Chosen c b candidate false
    two_chains :
        (tip : ℕ) (t : Tally)
        → on_one_chain heap find main_height b candidate ≡ some false
        → t
          ≡ tally_loop heap find main_height c.chain_window_size
              (some b)
              (some candidate)
              (no_tally heap find main_height)
        → cmp t.block_total t.candidate_total ≡ Ordering.lt
        → main_height zero_hash ≡ some tip
        → tip ≤ t.mainchain_height + 10
        → length t.block_seen ≤ length t.candidate_seen * 2
        → Chosen c b candidate true

  less : (d v : Difficulty) → IsU128 d → IsU128 v → is_lt (cmp d v) ≡ true → value d < value v
  less d v hd hv e =
      let below : compare (value d) (value v) ≡ Ordering.lt =
        sym (cmp-compare d v hd hv) ∙ is_lt-lt _ e in
      ground arith

  overtakes-Chosen :
      (c : Consensus) (b candidate : PoolBlock) (t : Tally)
      → on_one_chain heap find main_height b candidate ≡ some false
      → t
        ≡ tally_loop heap find main_height c.chain_window_size
            (some b)
            (some candidate)
            (no_tally heap find main_height)
      → overtakes heap find main_height c t ≡ true
      → Chosen c b candidate true
  unfolding overtakes
  overtakes-Chosen c b candidate t apart e h =
      elim (Bool-cases (is_lt (cmp t.block_total t.candidate_total))) [
        | inr ahead ↦ absurd (let h' = rw (ahead, overtakes) at h in cc)
        | inl behind ↦ elim (Option-cases (main_height zero_hash)) [
          | inl no_tip ↦ absurd (let h' = rw (behind, overtakes, no_tip) at h in cc)
          | inr (tip, at_tip) ↦
              let tests = rw (behind, overtakes, at_tip) at h in
              two_chains tip t apart e (is_lt-lt _ behind) at_tip (ground (arith, tests))
                (ground (arith, tests))
        ]
      ]

  -- A candidate that IsLongerChain chooses over a block is verified and valid. Where the two have an
  -- ancestor in common, its cumulative difficulty is above the block's; otherwise its chain has more
  -- difficulty in the window, its main chain blocks reach to within ten of the main chain's tip, and it
  -- has at least half as many of them as the block's chain.
  pub is_longer_chain-Chosen :
      (c : Consensus) (b candidate : PoolBlock) (alternative : Bool)
      → IsU128 b.side.cumulative_difficulty
      → IsU128 candidate.side.cumulative_difficulty
      → is_longer_chain heap find main_height c (some b) (some candidate) ≡ ok (true, alternative)
      → (candidate.verified ≡ true) × (candidate.invalid ≡ false) × Chosen c b candidate alternative
  unfolding is_longer_chain
  is_longer_chain-Chosen c b candidate alternative hb hc e =
      elim (Bool-cases (not candidate.verified || candidate.invalid)) [
        | inl bad ↦ absurd (let e' = rw bad at e in cc)
        | inr good ↦ (
          ground (arith, good),
          ground (arith, good),
          split (on_one_chain heap find main_height b candidate) refl (rw good at e),
        )
      ]
    where
      tally : Tally
      tally =
          tally_loop heap find main_height c.chain_window_size (some b) (some candidate)
            (no_tally heap find main_height)

      split :
          (o : Option Bool)
          → on_one_chain heap find main_height b candidate ≡ o
          → ◌≡◌ {A = Result (Bool × Bool)}
              (elim o [
                | none ↦ stuck
                | some true ↦ ok (
                  is_lt (cmp b.side.cumulative_difficulty candidate.side.cumulative_difficulty),
                  false,
                )
                | some false ↦ ok (overtakes heap find main_height c tally, true)
              ])
              (ok (true, alternative))
          → Chosen c b candidate alternative
      split none at_o h = absurd (cc)
      split (some true) at_o h =
          let first : is_lt (cmp b.side.cumulative_difficulty candidate.side.cumulative_difficulty)
              ≡ true =
            cc in
          let second : false ≡ alternative = cc in
          subst (Chosen c b candidate) second (one_chain at_o (less _ _ hb hc first))
      split (some false) at_o h =
          let first : overtakes heap find main_height c tally ≡ true = cc in
          let second : true ≡ alternative = cc in
          subst (Chosen c b candidate) second (overtakes-Chosen c b candidate tally at_o refl first)
