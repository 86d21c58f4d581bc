-- ===== src/SideChain/State/Health.antt =====
-- What holds of the blocks and the maps of a side chain, and how its operations change blocks.
use p2pool_observer.Prelude.{
  ℕ, ◌+◌, ◌-◌, ◌*◌, ◌%◌, ◌^◌, ◌<◌, ◌≤◌, ◌≡◌, refl, sym, ap, ◌∙◌, arith, ◌⊎◌, inl, inr, true, false,
  Option, some, List, [], All,
}
use p2pool_observer.Block.{Block}
use p2pool_observer.SideChain.SideData.{SideData}
use p2pool_observer.SideChain.PoolBlock.{PoolBlock, IterationCache}
use p2pool_observer.SideChain.Consensus.{Consensus, uncle_block_depth}
use p2pool_observer.SideChain.Verdict.{verified}
use p2pool_observer.SideChain.State.{ChainState, Rules, parent_of, ServerCall}

-- What a block is, apart from what the chain notes on it.
unfoldable pub content : PoolBlock → Block × (SideData × ℕ)
content b = (record b.main { transaction_parent_indices = [] }, (b.side, b.cached_share_version))

-- A block may get deeper, and flags once it has none: a verdict stays.
pub record Grown (b b' : PoolBlock) : Type 0 where
  pub same_content : content b' ≡ content b
  pub deeper : b.depth ≤ b'.depth
  pub still_verified : b.verified ≡ true → b'.verified ≡ true
  pub still_judged : b.verified ≡ true → b'.invalid ≡ b.invalid

pub Grown_refl : (b : PoolBlock) → Grown b b
Grown_refl b = record {
  same_content = refl;
  deeper = omega arith;
  still_verified = λ v. v;
  still_judged = λ v. refl;
}

pub Grown_trans : {b c d : PoolBlock} → Grown b c → Grown c d → Grown b d
Grown_trans g h = record {
  same_content = h.same_content ∙ g.same_content;
  deeper = omega (arith, g.deeper, h.deeper);
  still_verified = λ v. h.still_verified (g.still_verified v);
  still_judged = λ v. h.still_judged (g.still_verified v) ∙ g.still_judged v;
}

pub note-Grown :
    (b b' : PoolBlock)
    → content b' ≡ content b
    → b.depth ≤ b'.depth
    → b'.verified ≡ b.verified
    → b'.invalid ≡ b.invalid
    → Grown b b'
note-Grown b b' c d v i = record {
  same_content = c;
  deeper = d;
  still_verified = λ e. v ∙ e;
  still_judged = λ e. i;
}

pub record IsGood (b : PoolBlock) : Type 0 where
  pub is_verified : b.verified ≡ true
  pub is_valid : b.invalid ≡ false

pub Grown-IsGood : {b b' : PoolBlock} → Grown b b' → IsGood b → IsGood b'
Grown-IsGood g h = record {
  is_verified = g.still_verified h.is_verified;
  is_valid = g.still_judged h.is_verified ∙ h.is_valid;
}

pub Grown-side : {b b' : PoolBlock} → Grown b b' → b'.side ≡ b.side
unfolding content
Grown-side g = ap (λ k. (k.1).0) g.same_content

-- The depth from which on the checks of verifyBlock are skipped.
abbrev pub deep_limit : Consensus → ℕ
deep_limit c = ((c.chain_window_size + 2 ^ 64 - 1) % 2 ^ 64 * 2 + uncle_block_depth) % 2 ^ 64

-- What the rules promise: an id depends on the content alone, and an accepted block above the genesis that
-- is not deep stands on the good parent that getParent has for it.
pub record IsLawful (rules : Rules) : Type 0 where
  pub template_id_of_content :
      (b b' : PoolBlock) → content b' ≡ content b → rules.template_id b' ≡ rules.template_id b
  pub accepted_parent :
      (s : ChainState) (a : ℕ)
      → rules.verify_block s a ≡ verified
      → ((s.heap a).side.height ≡ 0)
        ⊎ ((deep_limit rules.consensus < (s.heap a).depth)
            ⊎ ((p : ℕ) × (parent_of s (s.heap a) ≡ some p)
                × IsGood (s.heap p)
                × ((s.heap a).side.height ≡ ((s.heap p).side.height + 1) % 2 ^ 64)))

module _ (rules : Rules) where
  -- A good block is the genesis or deep, or its parent's id is that of a good block one height below.
  unfoldable pub Stands : (ℕ → PoolBlock) → PoolBlock → Type 0
  Stands heap b =
      (b.side.height ≡ 0)
      ⊎ ((deep_limit rules.consensus < b.depth)
          ⊎ ((p : ℕ) × IsGood (heap p)
              × (rules.template_id (heap p) ≡ b.side.parent)
              × (b.side.height ≡ ((heap p).side.height + 1) % 2 ^ 64)))

  -- A cached parent has the id that the block names.
  unfoldable pub CachesParent : (ℕ → PoolBlock) → PoolBlock → Type 0
  CachesParent heap b =
      (cache : IterationCache) (p : ℕ)
      → b.iteration_cache ≡ some cache
      → cache.parent ≡ some p
      → rules.template_id (heap p) ≡ b.side.parent

  -- The invariant of the chain, on the blocks, the map of the ids and the tip.
  pub record IsHealthy (heap : ℕ → PoolBlock) (by_id : List (List ℕ × ℕ)) (tip : Option ℕ)
      : Type 0 where
    pub indexed : All (λ e. rules.template_id (heap e.1) ≡ e.0) by_id
    pub cached : (a : ℕ) → CachesParent heap (heap a)
    pub trusted : (a : ℕ) → IsGood (heap a) → Stands heap (heap a)
    pub tip_good : (t : ℕ) → tip ≡ some t → IsGood (heap t)

  abbrev pub Healthy : ChainState → Type 0
  Healthy s = IsHealthy s.heap s.blocks_by_template_id s.chain_tip

  -- What an operation does to a state.
  pub record Advance (s s' : ChainState) : Type 0 where
    pub grown : (x : ℕ) → Grown (s.heap x) (s'.heap x)
    pub healthy : Healthy s → Healthy s'

  pub Advance-refl : (s : ChainState) → Advance s s
  Advance-refl s = record { grown = λ x. Grown_refl (s.heap x); healthy = λ h. h }

  pub Advance-trans : {s t u : ChainState} → Advance s t → Advance t u → Advance s u
  Advance-trans f g = record {
    grown = λ x. Grown_trans (f.grown x) (g.grown x);
    healthy = λ h. g.healthy (f.healthy h);
  }

  -- Changes of the other fields.
  pub Advance-fields :
      (s s' : ChainState)
      → s'.heap ≡ s.heap
      → s'.blocks_by_template_id ≡ s.blocks_by_template_id
      → s'.chain_tip ≡ s.chain_tip
      → Advance s s'
  Advance-fields s s' e f g = record {
    grown = λ x. rw e (Grown_refl (s.heap x));
    healthy = λ h. rw (e, f, g) h;
  }

  pub Advance-calls :
      (s : ChainState) (calls : List ServerCall) → Advance s (record s { calls = calls })
  Advance-calls s k = record { grown = λ x. Grown_refl (s.heap x); healthy = λ h. h }

  module _ (lawful : IsLawful rules) where
    pub Grown-template_id :
        {b b' : PoolBlock} → Grown b b' → rules.template_id b' ≡ rules.template_id b
    Grown-template_id {b} {b'} g = lawful.template_id_of_content b b' g.same_content

    pub Grown-Stands :
        (heap heap' : ℕ → PoolBlock) {b b' : PoolBlock}
        → ((x : ℕ) → Grown (heap x) (heap' x))
        → Grown b b'
        → Stands heap b
        → Stands heap' b'
    unfolding Stands
    Grown-Stands heap heap' gs g (inl genesis) = inl (ap (λ d. d.height) (Grown-side g) ∙ genesis)
    Grown-Stands heap heap' gs g (inr (inl deep)) = inr (inl (omega (arith, deep, g.deeper)))
    Grown-Stands heap heap' gs g (inr (inr (p, good, id, height))) =
        let same = ap (λ d. d.height) (Grown-side g) in
        let same_parent = ap (λ d. d.height) (Grown-side (gs p)) in
        inr (
          inr (
            p,
            Grown-IsGood (gs p) good,
            Grown-template_id (gs p) ∙ id ∙ sym (ap (λ d. d.parent) (Grown-side g)),
            same ∙ height ∙ ap (λ h. (h + 1) % 2 ^ 64) (sym same_parent),
          ))
