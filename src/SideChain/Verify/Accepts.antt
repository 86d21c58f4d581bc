-- ===== src/SideChain/Verify/Accepts.antt =====
-- The shares that verifyBlock accepts, when it does not skip the checks.
use p2pool_observer.Prelude.{
  ℕ, ◌+◌, ◌-◌, ◌*◌, ◌%◌, ◌^◌, ◌<◌, ◌≤◌, ◌≡◌, refl, sym, ◌∙◌, arith, true, false, not, ◌&&◌, ◌⊎◌,
  inl, inr, Option, some, List, ltb, ◌==◌, min, All, Bool-cases, Option-cases,
}
use p2pool_observer.Types.Uint128.{Difficulty, Uint128, IsU128, value}
use p2pool_observer.Types.Difficulty.{add}
use p2pool_observer.Types.Difficulty.Arithmetic.{value-add}
use p2pool_observer.Types.Hash.{bytes_eq, zero_hash}
use p2pool_observer.Types.Hash.Order.{bytes_eq→eq}
use p2pool_observer.SideChain.Share.{Share, PackedAddress}
use p2pool_observer.SideChain.PoolBlock.{PoolBlock}
use p2pool_observer.SideChain.Consensus.{Consensus}
use p2pool_observer.SideChain.Verdict.{Check, goes_on, ends, verified, NextDifficulty, ascending}
use p2pool_observer.SideChain.Uncles.{get_parent}
use p2pool_observer.SideChain.Verify.{
  mined_blocks, expected_seed, verify_sum, verify_on, verify_block,
}
use p2pool_observer.SideChain.Uncles.Ancestors.{
  fails_ne, passes, not-false, Ascending, ascending-Ascending,
}
use p2pool_observer.SideChain.Uncles.Sound.{IsUncle, uncle_sum, check_uncles-IsUncle}

module _ (keccak : List ℕ → List ℕ) (lib : Uint128) (c : Consensus) (heap : ℕ → PoolBlock)
    (find : List ℕ → Option ℕ) where
  -- The share `b` stands on the block at `address`.
  pub record StandsOn (b : PoolBlock) : Type 0 where
    pub address : ℕ
    pub parent_found : get_parent heap find b ≡ some address
    pub parent_verified : (heap address).verified ≡ true
    pub parent_valid : (heap address).invalid ≡ false
    pub seed :
        (b.cached_share_version ≤ 1)
        ⊎ (b.side.coinbase_private_key_seed ≡ expected_seed keccak b (heap address))
    pub height : b.side.height ≡ ((heap address).side.height + 1) % 2 ^ 64
    pub uncles_ascending : Ascending b.side.uncles
    pub uncles_valid :
        All
          (IsUncle heap find b address
            (mined_blocks keccak c heap find (min 3 ((b.side.height + 1) % 2 ^ 64)) (some address)))
          b.side.uncles
    pub cumulative :
        value b.side.cumulative_difficulty
        ≡ (value (heap address).side.cumulative_difficulty
            + value b.side.difficulty
            + uncle_sum heap find b.side.uncles)
          % 2 ^ 128

  seed_cases :
      (version : ℕ) (s t : List ℕ)
      → (ltb 1 version && not (bytes_eq s t)) ≡ false
      → (version ≤ 1) ⊎ (s ≡ t)
  seed_cases version s t e = elim (Bool-cases (ltb 1 version)) [
    | inl late ↦ inr (bytes_eq→eq s t (ground (arith, late, e)))
    | inr early ↦ inl (ground (arith, early))
  ]

  module _ (tip : Option ℕ) (current_difficulty : Difficulty) (get_difficulty : ℕ → NextDifficulty)
      (get_shares : PoolBlock → List Share)
      (ephemeral_public_key : PackedAddress → List ℕ → ℕ → List ℕ × ℕ) where
    verify_sum-sum :
        (b : PoolBlock) (p : ℕ) (k : Check)
        → verify_sum keccak lib c heap find tip current_difficulty get_difficulty get_shares
            ephemeral_public_key b p k
          ≡ verified
        → (d : Difficulty) × (k ≡ goes_on d) × (lib.equals b.side.cumulative_difficulty d ≡ true)
    unfolding verify_sum
    verify_sum-sum b p (ends f) e = absurd (fails_ne f e)
    verify_sum-sum b p (goes_on d) e =
        let (equal, e1) = passes (not (lib.equals b.side.cumulative_difficulty d)) (fails_ne _) e in
        (d, refl, not-false _ equal)

    -- With its parent at hand.
    verify_on-StandsOn :
        (b : PoolBlock) (p : ℕ)
        → IsU128 b.side.cumulative_difficulty
        → get_parent heap find b ≡ some p
        → verify_on keccak lib c heap find tip current_difficulty get_difficulty get_shares
            ephemeral_public_key b p
          ≡ verified
        → StandsOn b
    unfolding verify_on
    verify_on-StandsOn b p v found e =
        let (checked, e1) = passes (not (heap p).verified) (fails_ne _) e in
        let (valid, e2) = passes (heap p).invalid (fails_ne _) e1 in
        let (seeded, e3) =
          passes
            (ltb 1 b.cached_share_version
              && not (bytes_eq b.side.coinbase_private_key_seed (expected_seed keccak b (heap p))))
            (fails_ne _) e2 in
        let (next, e4) =
          passes (not (((heap p).side.height + 1) % 2 ^ 64 == b.side.height)) (fails_ne _) e3 in
        let (sorted, e5) = passes (not (ascending b.side.uncles)) (fails_ne _) e4 in
        let first = add (heap p).side.cumulative_difficulty b.side.difficulty in
        let (d, went_on, equal) = verify_sum-sum b p _ e5 in
        let (first_sum, first_fits) =
          value-add (heap p).side.cumulative_difficulty b.side.difficulty in
        let (uncles, total, fits) =
          check_uncles-IsUncle heap find b p _ first d b.side.uncles first_fits went_on in
        record {
          address = p;
          parent_found = found;
          parent_verified = not-false _ checked;
          parent_valid = valid;
          seed = seed_cases b.cached_share_version _ _ seeded;
          height = ground (arith, next);
          uncles_ascending = ascending-Ascending b.side.uncles (not-false _ sorted);
          uncles_valid = uncles;
          cumulative =
              same_value (sym (lib.equals_lem b.side.cumulative_difficulty d v fits) ∙ equal)
              ∙ omega (arith, total, first_sum);
        }
      where
        same_value : {m n : ℕ} → (m == n) ≡ true → m ≡ n
        same_value h = ground arith

    -- A share above the genesis height, and not so deep that the checks are skipped, that verifyBlock
    -- accepts stands on a verified and valid parent: its seed and its height follow from the parent's,
    -- its uncles are in strictly ascending order, and each is a known, verified and valid block of the
    -- same chain, one to three heights below, that was not mined in the last three blocks; and its
    -- cumulative difficulty is the parent's, its own and the uncles' together, modulo 2 ^ 128.
    pub verify_block-StandsOn :
        (b : PoolBlock)
        → IsU128 b.side.cumulative_difficulty
        → 1 ≤ c.chain_window_size
        → c.chain_window_size < 2 ^ 62
        → 0 < b.side.height
        → b.depth ≤ (c.chain_window_size - 1) * 2 + 3
        → verify_block keccak lib c heap find tip current_difficulty get_difficulty get_shares
            ephemeral_public_key b
          ≡ verified
        → StandsOn b
    unfolding verify_block
    verify_block-StandsOn b v some_window small above shallow e =
        let (has_id, e1) =
          passes (bytes_eq b.side.parent zero_hash) (fails_ne _)
            (rw (not_genesis, verify_block, near) at e) in
        elim (Option-cases (get_parent heap find b)) [
          | inl missing ↦ absurd (fails_ne _ (rw (missing, verify_block) at e1))
          | inr (p, found) ↦ verify_on-StandsOn b p v found (rw (found, verify_block) at e1)
        ]
      where
        not_genesis : (b.side.height == 0) ≡ false
        not_genesis = ground (arith, above)

        near : ltb (((c.chain_window_size + 2 ^ 64 - 1) % 2 ^ 64 * 2 + 3) % 2 ^ 64) b.depth ≡ false
        near = ground (arith, shallow, small, some_window)
