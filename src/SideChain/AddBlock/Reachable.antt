-- ===== src/SideChain/AddBlock/Reachable.antt =====
-- The states that a chain can reach, by its operations one after another.
use p2pool_observer.Prelude.{
  ℕ, zero, suc, ◌+◌, ◌^◌, ◌<◌, ◌≡◌, refl, sym, ◌∙◌, arith, inl, inr, Bool, true, false, none, some,
  List, [],
}
use p2pool_observer.Codec.{ok}
use p2pool_observer.SideChain.PoolBlock.{PoolBlock, contains_hash, full_id}
use p2pool_observer.SideChain.State.Writes.{if_rule}
use p2pool_observer.SideChain.State.{ChainState, Rules}
use p2pool_observer.SideChain.State.Health.{
  IsGood, IsLawful, Stands, CachesParent, Healthy, deep_limit, Advance, Advance-refl,
  Advance-fields,
}
use p2pool_observer.SideChain.State.Outcomes.{OnOk, OnOk-any, OnOk-get, OnOk-then_result}
use p2pool_observer.SideChain.AddBlock.{AddError, add_pool_block}
use p2pool_observer.SideChain.AddBlock.Healthy.{add_pool_block-Advance}
use p2pool_observer.SideChain.Missing.{
  is_far_below_tip, block_seen, block_unsee, watch_main_chain_block,
}

-- An empty chain, over blocks that have neither a verdict nor a cache.
pub record IsFresh (s : ChainState) : Type 0 where
  pub unverified : (a : ℕ) → (s.heap a).verified ≡ false
  pub uncached : (a : ℕ) → (s.heap a).iteration_cache ≡ none
  pub no_blocks : s.blocks_by_template_id ≡ []
  pub no_tip : s.chain_tip ≡ none

module _ (rules : Rules) where
  -- A call of an operation that ended.
  pub data Step : ChainState → ChainState → Type 0 where
    adds :
        {s s' : ChainState} (now fuel a : ℕ) (e : AddError)
        → add_pool_block rules now fuel a s ≡ ok (s', e)
        → Step s s'
    sees :
        {s s' : ChainState} (a : ℕ) (seen : Bool)
        → block_seen rules.consensus (s.heap a) s ≡ ok (seen, s')
        → Step s s'
    forgets : {s s' : ChainState} (a : ℕ) → block_unsee (s.heap a) s ≡ ok s' → Step s s'
    watches : {s : ChainState} (id : List ℕ) → Step s (watch_main_chain_block id s)

  pub data Reachable : ChainState → Type 0 where
    fresh : {s : ChainState} → IsFresh s → Reachable s
    later : {s s' : ChainState} → Reachable s → Step s s' → Reachable s'

  -- A good block that is the genesis or deep, or whose parent, by its id, is such a block one height below.
  pub data Backed (heap : ℕ → PoolBlock) : PoolBlock → Type 0 where
    genesis : {b : PoolBlock} → IsGood b → b.side.height ≡ 0 → Backed heap b
    deep : {b : PoolBlock} → IsGood b → deep_limit rules.consensus < b.depth → Backed heap b
    on_parent :
        {b : PoolBlock} (p : ℕ)
        → IsGood b
        → rules.template_id (heap p) ≡ b.side.parent
        → b.side.height ≡ (heap p).side.height + 1
        → Backed heap (heap p)
        → Backed heap b

  Healthy-fresh : (s : ChainState) → IsFresh s → Healthy rules s
  unfolding CachesParent
  Healthy-fresh s f = record {
    indexed = rw f.no_blocks tt;
    cached = λ a k p e. absurd (let none_some : none ≡ some k = sym (f.uncached a) ∙ e in cc);
    trusted = λ a good.
        absurd (let no_yes : false ≡ true = sym (f.unverified a) ∙ good.is_verified in cc);
    tip_good = λ t e. absurd (let none_some : none ≡ some t = sym f.no_tip ∙ e in cc);
  }

  module _ (lawful : IsLawful rules) where
    block_seen-Advance :
        (b : PoolBlock) (s : ChainState)
        → OnOk (λ (r : Bool × ChainState). Advance rules s r.1) (block_seen rules.consensus b s)
    unfolding block_seen
    block_seen-Advance b s =
        let P = λ (r : Bool × ChainState). Advance rules s r.1 in
        if_rule (OnOk P) (is_far_below_tip rules.consensus s b) (Advance-refl rules s) (
          OnOk-then_result (λ (id : List ℕ). Unit {0}) P (full_id b) _ (OnOk-any (full_id b))
            (λ id k.
              if_rule (OnOk P) (contains_hash s.seen_blocks id) (Advance-refl rules s)
                (Advance-fields rules s _ refl refl refl)))

    block_unsee-Advance :
        (b : PoolBlock) (s : ChainState) → OnOk (Advance rules s) (block_unsee b s)
    unfolding block_unsee
    block_unsee-Advance b s =
        OnOk-then_result (λ (id : List ℕ). Unit {0}) (Advance rules s) (full_id b) _
          (OnOk-any (full_id b)) (λ id k. Advance-fields rules s _ refl refl refl)

    pub Step-Advance : (s s' : ChainState) → Step s s' → Advance rules s s'
    unfolding watch_main_chain_block
    Step-Advance s s' (adds now fuel a e h) =
        add_pool_block-Advance rules lawful now fuel a s s' e h
    Step-Advance s s' (sees a seen h) =
        OnOk-get (λ (r : Bool × ChainState). Advance rules s r.1)
          (block_seen rules.consensus (s.heap a) s) (seen, s') (block_seen-Advance (s.heap a) s) h
    Step-Advance s s' (forgets a h) =
        OnOk-get (Advance rules s) (block_unsee (s.heap a) s) s' (block_unsee-Advance (s.heap a) s)
          h
    Step-Advance s s' (watches id) = Advance-fields rules s _ refl refl refl

    pub Reachable-Healthy : (s : ChainState) → Reachable s → Healthy rules s
    Reachable-Healthy s (fresh f) = Healthy-fresh s f
    Reachable-Healthy s (later {s = t} r step) =
        (Step-Advance t s step).healthy (Reachable-Healthy t r)

    backed :
        (s : ChainState)
        → Healthy rules s
        → ((x : ℕ) → (s.heap x).side.height < 2 ^ 64)
        → (n a : ℕ) → (s.heap a).side.height ≡ n
        → IsGood (s.heap a)
        → Backed s.heap (s.heap a)
    unfolding Stands
    backed s h u zero a e good = genesis good e
    backed s h u (suc n) a e good = elim (h.trusted a good) [
      | inl low ↦ genesis good low
      | inr (inl far) ↦ deep good far
      | inr (inr (p, p_good, id, height)) ↦
          let bound = u p in
          let next : (s.heap a).side.height ≡ (s.heap p).side.height + 1 = omega arith in
          on_parent p good id next (backed s h u n p (omega arith) p_good)
    ]

    -- In every state that an empty chain reaches, the tip is verified and valid, and it is backed.
    pub Reachable-Backed :
        (s : ChainState) (t : ℕ)
        → Reachable s
        → ((x : ℕ) → (s.heap x).side.height < 2 ^ 64)
        → s.chain_tip ≡ some t
        → Backed s.heap (s.heap t)
    Reachable-Backed s t r u e =
        let h = Reachable-Healthy s r in backed s h u _ t refl (h.tip_good t e)
