-- ===== src/SideChain/Chain/Answers.antt =====
-- verifyBlock and isLongerChain end in the states in which parents are below their children.
use Prim.Native.Nat.{Ordering}
use p2pool_observer.Prelude.{ℕ, ◌≡◌, refl, sym, ◌∙◌, inl, inr, Option, List, Option-cases}
use p2pool_observer.Types.Uint128.{Difficulty, Uint128}
use p2pool_observer.SideChain.Share.{Share, PackedAddress}
use p2pool_observer.SideChain.PoolBlock.{PoolBlock}
use p2pool_observer.SideChain.Consensus.{Consensus}
use p2pool_observer.SideChain.Window.{iterator_get_parent}
use p2pool_observer.SideChain.Verify.Ends.{verify_block-ends}
use p2pool_observer.SideChain.Longer.{block_of}
use p2pool_observer.SideChain.Longer.Ends.{ParentBelow, is_longer_chain-ends}
use p2pool_observer.SideChain.State.{ChainState, get_by_template_id, parent_of}
use p2pool_observer.SideChain.State.Falls.{Falls, Falls-parent_of}
use p2pool_observer.SideChain.VerifyLoop.Ends.{IsAnswering}
use p2pool_observer.SideChain.Chain.{find_block, chain_verify_block, chain_is_longer, chain_rules}
use p2pool_observer.SideChain.Chain.Lawful.{parent_of-get_parent}

-- The block that iteratorGetParent gives is the one behind the pointer that getParent gives.
iterator_get_parent-parent_of :
    (s : ChainState) (b : PoolBlock)
    → iterator_get_parent s.heap (find_block s) b ≡ block_of s.heap (parent_of s b)
unfolding iterator_get_parent find_block block_of parent_of
iterator_get_parent-parent_of s b = elim (Option-cases b.iteration_cache) [
  | inl uncached ↦ rw (uncached, iterator_get_parent, parent_of) refl
  | inr (c, cached) ↦ elim (Option-cases c.parent) [
    | inl nil ↦ rw (cached, iterator_get_parent, parent_of, nil) refl
    | inr (p, some_p) ↦ rw (cached, iterator_get_parent, parent_of, some_p) refl
  ]
]

Falls-ParentBelow :
    (s : ChainState) (main_height : List ℕ → Option ℕ)
    → Falls s
    → ParentBelow s.heap (find_block s) main_height
unfolding block_of
Falls-ParentBelow s main_height h a q e =
    let e' = sym (iterator_get_parent-parent_of s (s.heap a)) ∙ e in
    elim (Option-cases (parent_of s (s.heap a))) [
      | inl missing ↦ absurd (let none_some = rw (missing, block_of) at e' in cc)
      | inr (p, found) ↦
          let same = rw (found, block_of) at e' in
          let here : s.heap p ≡ q = cc in (p, sym here, Falls-parent_of s a p h found)
    ]

module _ (keccak : List ℕ → List ℕ) (lib : Uint128) (c : Consensus)
    (difficulty_by_height : ℕ → Difficulty) (main_height : List ℕ → Option ℕ)
    (sort_func : (Share → Share → Ordering) → List Share → List Share)
    (ephemeral_public_key : PackedAddress → List ℕ → ℕ → List ℕ × ℕ) where
  -- The chain's own rules answer.
  pub chain_rules-IsAnswering :
      IsAnswering
        (chain_rules keccak lib c difficulty_by_height main_height sort_func ephemeral_public_key)
  unfolding chain_rules chain_verify_block chain_is_longer
  chain_rules-IsAnswering = record {
    verifies = λ s a h.
        verify_block-ends s.heap (get_by_template_id s)
          (λ p q e. Falls-parent_of s p q h (parent_of-get_parent s (s.heap p) ∙ e)) keccak lib c
          s.chain_tip s.current_difficulty _ _ ephemeral_public_key (s.heap a);
    compares = λ s o a h.
        is_longer_chain-ends s.heap (find_block s) main_height (Falls-ParentBelow s main_height h) c
          o a;
  }
