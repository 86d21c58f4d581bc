-- ===== src/SideChain/Chain/Lawful.antt =====
-- verifyBlock and SideTemplateId are what the operations on the chain's state rely on.
use Prim.Native.Nat.{Ordering}
use p2pool_observer.Prelude.{
  ℕ, ◌+◌, ◌%◌, ◌^◌, ◌<◌, ◌≡◌, refl, ap, ◌∙◌, arith, ◌⊎◌, inl, inr, true, not, ◌&&◌, Option, some,
  List, [], ◌++◌, ◌==◌, ==_iff, ltb, ltb→lt, Bool-cases, Option-cases,
}
use p2pool_observer.Types.Uint128.{Difficulty, Uint128}
use p2pool_observer.Types.Hash.{bytes_eq, zero_hash}
use p2pool_observer.Block.{Block, block_hashing_blob, header_blob}
use p2pool_observer.SideChain.Share.{Share, PackedAddress}
use p2pool_observer.SideChain.SideData.{SideData, side_data_append_binary}
use p2pool_observer.SideChain.PoolBlock.{PoolBlock}
use p2pool_observer.SideChain.Consensus.{Consensus, side_template_id}
use p2pool_observer.SideChain.Verdict.{verified, NextDifficulty}
use p2pool_observer.SideChain.Uncles.{get_parent}
use p2pool_observer.SideChain.Uncles.Ancestors.{fails_ne, passes, not-false}
use p2pool_observer.SideChain.Verify.{expected_seed, verify_on, verify_block}
use p2pool_observer.SideChain.State.{ChainState, get_by_template_id, parent_of}
use p2pool_observer.SideChain.State.Health.{content, deep_limit, IsGood, IsLawful}
use p2pool_observer.SideChain.Chain.{chain_rules, chain_verify_block}

module _ (keccak : List ℕ → List ℕ) (c : Consensus) where
  side_template_id-content :
      (b b' : PoolBlock)
      → content b' ≡ content b
      → side_template_id keccak c b' ≡ side_template_id keccak c b
  unfolding content side_template_id block_hashing_blob header_blob
  side_template_id-content b b' e =
      ap
        (λ (k : Block × (SideData × ℕ)).
          keccak
            (block_hashing_blob [] k.0 true ++ (side_data_append_binary [] k.1.0 k.1.1 ++ c.id)))
        e

module _ (keccak : List ℕ → List ℕ) (lib : Uint128) (c : Consensus) (heap : ℕ → PoolBlock)
    (find : List ℕ → Option ℕ) (tip : Option ℕ) (current_difficulty : Difficulty)
    (get_difficulty : ℕ → NextDifficulty) (get_shares : PoolBlock → List Share)
    (ephemeral_public_key : PackedAddress → List ℕ → ℕ → List ℕ × ℕ) where
  verify_on-IsGood :
      (b : PoolBlock) (p : ℕ)
      → verify_on keccak lib c heap find tip current_difficulty get_difficulty get_shares
          ephemeral_public_key b p
        ≡ verified
      → IsGood (heap p) × (b.side.height ≡ ((heap p).side.height + 1) % 2 ^ 64)
  unfolding verify_on
  verify_on-IsGood b p e =
      let (checked, e1) = passes (not (heap p).verified) (fails_ne _) e in
      let (valid, e2) = passes (heap p).invalid (fails_ne _) e1 in
      let (seeded, e3) =
        passes
          (ltb 1 b.cached_share_version
            && not (bytes_eq b.side.coinbase_private_key_seed (expected_seed keccak b (heap p))))
          (fails_ne _) e2 in
      let (next, e4) =
        passes (not (((heap p).side.height + 1) % 2 ^ 64 == b.side.height)) (fails_ne _) e3 in
      (record { is_verified = not-false _ checked; is_valid = valid }, ground (arith, next))

  verify_block-parent :
      (b : PoolBlock)
      → verify_block keccak lib c heap find tip current_difficulty get_difficulty get_shares
          ephemeral_public_key b
        ≡ verified
      → (b.side.height ≡ 0)
        ⊎ ((deep_limit c < b.depth)
            ⊎ ((p : ℕ) × (get_parent heap find b ≡ some p)
                × IsGood (heap p)
                × (b.side.height ≡ ((heap p).side.height + 1) % 2 ^ 64)))
  unfolding verify_block
  verify_block-parent b e = elim (Bool-cases (b.side.height == 0)) [
    | inl genesis ↦ inl ((==_iff _ _).0 genesis)
    | inr above ↦ elim (Bool-cases (ltb (deep_limit c) b.depth)) [
      | inl deep ↦ inr (inl (ltb→lt _ _ deep))
      | inr near ↦
          let (has_id, e1) =
            passes (bytes_eq b.side.parent zero_hash) (fails_ne _)
              (rw (above, verify_block, near) at e) in
          elim (Option-cases (get_parent heap find b)) [
            | inl missing ↦ absurd (fails_ne _ (rw (missing, verify_block) at e1))
            | inr (p, found) ↦
                let (good, height) = verify_on-IsGood b p (rw (found, verify_block) at e1) in
                inr (inr (p, found, good, height))
          ]
    ]
  ]

pub parent_of-get_parent :
    (s : ChainState) (b : PoolBlock) → parent_of s b ≡ get_parent s.heap (get_by_template_id s) b
unfolding parent_of get_parent
parent_of-get_parent s b = elim (Option-cases b.iteration_cache) [
  | inl uncached ↦ rw (uncached, parent_of, get_parent) refl
  | inr (k, cached) ↦ rw (cached, parent_of, get_parent) refl
]

module _ (keccak : List ℕ → List ℕ) (lib : Uint128) (c : Consensus)
    (difficulty_by_height : ℕ → Difficulty) (main_height : List ℕ → Option ℕ)
    (sort_func : (Share → Share → Ordering) → List Share → List Share)
    (ephemeral_public_key : PackedAddress → List ℕ → ℕ → List ℕ × ℕ) where
  pub chain_rules-IsLawful :
      IsLawful
        (chain_rules keccak lib c difficulty_by_height main_height sort_func ephemeral_public_key)
  unfolding chain_rules chain_verify_block
  chain_rules-IsLawful = record {
    template_id_of_content = side_template_id-content keccak c;
    accepted_parent = λ s a e.
        elim (verify_block-parent keccak lib c s.heap (get_by_template_id s) s.chain_tip
          s.current_difficulty _ _ ephemeral_public_key (s.heap a) e) [
            | inl genesis ↦ inl genesis
            | inr (inl deep) ↦ inr (inl deep)
            | inr (inr (p, found, good, height)) ↦
                inr (inr (p, parent_of-get_parent s (s.heap a) ∙ found, good, height))
          ];
  }
