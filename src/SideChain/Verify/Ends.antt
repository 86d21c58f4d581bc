-- ===== src/SideChain/Verify/Ends.antt =====
-- The walks back through the chain end.
use p2pool_observer.Prelude.{
  ℕ, zero, suc, ◌+◌, ◌%◌, ◌^◌, ◌<◌, ◌≡◌, ◌≢◌, refl, ap, ◌∙◌, arith, Bool, true, false, not, ◌||◌,
  inl, inr, map, Option, none, some, List, [], ◌∷◌, ltb, leb, if◌then◌else◌, min, Bool-cases,
  Option-cases,
}
use p2pool_observer.Types.Uint128.{Difficulty, Uint128}
use p2pool_observer.Types.Difficulty.{add}
use p2pool_observer.Types.Hash.{bytes_eq, zero_hash}
use p2pool_observer.SideChain.Share.{Share, PackedAddress}
use p2pool_observer.SideChain.Reward.{given_total, split_reward}
use p2pool_observer.SideChain.Consensus.{Consensus}
use p2pool_observer.SideChain.PoolBlock.{PoolBlock, contains_hash}
use p2pool_observer.SideChain.Verdict.{
  Reason, invalid, unverifiable, uncle_missing, uncle_not_verified, uncle_invalid, uncle_height,
  NextDifficulty, difficulty_of, not_yet, never, verified, fails, Check, goes_on, ends, looping,
}
use p2pool_observer.SideChain.Uncles.{
  get_parent, walk_back, same_chain, check_ancestor, check_uncle, check_uncles,
}
use p2pool_observer.SideChain.Verify.{
  mined_blocks, verify_payout, verify_difficulty, verify_sum, verify_on, verify_genesis,
  verify_block,
}

-- A test between two results is neither of what they are not.
avoids : {A : Type 0} {x rest r : A} (t : Bool) → x ≢ r → rest ≢ r → (if t then x else rest) ≢ r
avoids true a b = a
avoids false a b = b

wrong : (r : Reason) → fails (invalid r) ≢ fails looping
wrong r h = cc

waits : (r : Reason) → fails (unverifiable r) ≢ fails looping
waits r h = cc

fine : verified ≢ fails looping
fine h = cc

module _ (heap : ℕ → PoolBlock) (find : List ℕ → Option ℕ)
    (higher : (p q : ℕ)
      → get_parent heap find (heap p) ≡ some q
      → (heap q).side.height < (heap p).side.height) where
  -- A round for every height suffices.
  walk_back-ends :
      (fuel height p : ℕ) → (heap p).side.height < fuel → walk_back heap find fuel height p ≢ none
  unfolding walk_back
  walk_back-ends zero height p h e = absurd (omega arith)
  walk_back-ends (suc fuel) height p h e = elim (Bool-cases (ltb height (heap p).side.height)) [
    | inl above ↦ elim (Option-cases (get_parent heap find (heap p))) [
      | inl missing ↦ absurd (let e' = rw (above, walk_back, missing) at e in cc)
      | inr (q, found) ↦
          walk_back-ends fuel height q (omega (arith, higher p q found))
            (rw (above, walk_back, found) at e)
    ]
    | inr reached ↦ absurd (let e' = rw (reached, walk_back) at e in cc)
  ]

  check_ancestor-ends :
      (b : PoolBlock) (p u : ℕ) (d : Difficulty) → check_ancestor heap find b p u d ≢ ends looping
  unfolding check_ancestor
  check_ancestor-ends b p u d e = elim (Option-cases walk) [
    | inl out ↦ walk_back-ends _ _ p (omega arith) out
    | inr (w, some_w) ↦ elim (Option-cases w) [
      | inl missing ↦ absurd (let e' = rw (some_w ∙ ap some missing, check_ancestor) at e in cc)
      | inr (tmp, some_tmp) ↦
          avoids (ltb (heap tmp).side.height (heap u).side.height) (λ x. cc)
            (avoids (same_chain heap find 3 b.side.height (some tmp) (some u)) (λ x. cc) (λ x. cc))
            (rw (some_w ∙ ap some some_tmp, check_ancestor) at e)
    ]
  ]
    where
      walk : Option (Option ℕ)
      walk = walk_back heap find (suc (heap p).side.height) (heap u).side.height p

  check_uncle-ends :
      (b : PoolBlock) (p : ℕ) (mined : List (List ℕ)) (d : Difficulty) (id : List ℕ)
      → check_uncle heap find b p mined d id ≢ ends looping
  unfolding check_uncle
  check_uncle-ends b p mined d id =
      avoids (bytes_eq id zero_hash) (λ x. cc)
        (avoids (contains_hash mined id) (λ x. cc) (λ e. split (find id) e))
    where
      split :
          (o : Option ℕ)
          → elim o [
            | none ↦ ends (unverifiable uncle_missing)
            | some u ↦
                if not (heap u).verified
                then ends (unverifiable uncle_not_verified)
                else if (heap u).invalid
                then ends (invalid uncle_invalid)
                else if leb b.side.height (heap u).side.height
                    || ltb (((heap u).side.height + 3) % 2 ^ 64) b.side.height
                then ends (invalid uncle_height)
                else check_ancestor heap find b p u d
          ]
            ≢ ends looping
      split none e = cc
      split (some u) e =
          avoids (not (heap u).verified) (λ x. cc)
            (avoids (heap u).invalid (λ x. cc)
              (avoids
                (leb b.side.height (heap u).side.height
                  || ltb (((heap u).side.height + 3) % 2 ^ 64) b.side.height)
                (λ x. cc) (check_ancestor-ends b p u d)))
            e

  pub check_uncles-ends :
      (b : PoolBlock) (p : ℕ) (mined : List (List ℕ)) (d : Difficulty) (ids : List (List ℕ))
      → check_uncles heap find b p mined d ids ≢ ends looping
  unfolding check_uncles
  check_uncles-ends b p mined d [] e = cc
  check_uncles-ends b p mined d (id ∷ ids) e =
      split (check_uncle heap find b p mined d id) refl (λ x. check_uncles-ends b p mined x ids) e
    where
      split :
          (k : Check)
          → check_uncle heap find b p mined d id ≡ k
          → ((x : Difficulty) → check_uncles heap find b p mined x ids ≢ ends looping)
          → elim k [
            | goes_on x ↦ check_uncles heap find b p mined x ids
            | ends failure ↦ ends failure
          ]
            ≢ ends looping
      split (goes_on x) at_id rest e' = rest x e'
      split (ends failure) at_id rest e' = check_uncle-ends b p mined d id (at_id ∙ e')

  module _ (keccak : List ℕ → List ℕ) (lib : Uint128) (c : Consensus) (tip : Option ℕ)
      (current_difficulty : Difficulty) (get_difficulty : ℕ → NextDifficulty)
      (get_shares : PoolBlock → List Share)
      (ephemeral_public_key : PackedAddress → List ℕ → ℕ → List ℕ × ℕ) where
    verify_payout-ends :
        (b : PoolBlock)
        → verify_payout keccak lib c heap find tip current_difficulty get_difficulty get_shares
            ephemeral_public_key b
          ≢ fails looping
    unfolding verify_payout
    verify_payout-ends b e = elim (Option-cases (split_reward lib total (get_shares b))) [
      | inl none_given ↦ ground (arith, rw (none_given, verify_payout) at e)
      | inr (rewards, given) ↦ ground (arith, rw (given, verify_payout) at e)
    ]
      where
        total : ℕ
        total = given_total 0 (map (λ o. o.reward) b.main.coinbase.outputs)

    verify_difficulty-ends :
        (b : PoolBlock) (p : ℕ)
        → verify_difficulty keccak lib c heap find tip current_difficulty get_difficulty get_shares
            ephemeral_public_key b p
          ≢ fails looping
    unfolding verify_difficulty
    verify_difficulty-ends b p e = split (get_difficulty p) refl e
      where
        payout :
            verify_payout keccak lib c heap find tip current_difficulty get_difficulty get_shares
              ephemeral_public_key b
            ≢ fails looping
        payout = verify_payout-ends b

        split :
            (n : NextDifficulty)
            → get_difficulty p ≡ n
            → verify_difficulty keccak lib c heap find tip current_difficulty get_difficulty
                get_shares ephemeral_public_key b p
              ≢ fails looping
        split not_yet at_p e' = ground (arith, payout, rw (at_p, verify_difficulty) at e')
        split never at_p e' = ground (arith, payout, rw (at_p, verify_difficulty) at e')
        split (difficulty_of d) at_p e' = ground (arith, payout, rw (at_p, verify_difficulty) at e')

    verify_sum-ends :
        (b : PoolBlock) (p : ℕ) (k : Check)
        → k ≢ ends looping
        → verify_sum keccak lib c heap find tip current_difficulty get_difficulty get_shares
            ephemeral_public_key b p k
          ≢ fails looping
    unfolding verify_sum
    verify_sum-ends b p (ends f) ne e =
        ne (let same_failure : f ≡ looping = cc in ap ends same_failure)
    verify_sum-ends b p (goes_on d) ne e = ground (arith, verify_difficulty-ends b p)

    verify_on-ends :
        (b : PoolBlock) (p : ℕ)
        → verify_on keccak lib c heap find tip current_difficulty get_difficulty get_shares
            ephemeral_public_key b p
          ≢ fails looping
    unfolding verify_on
    verify_on-ends b p e =
        let mined =
          mined_blocks keccak c heap find (min 3 ((b.side.height + 1) % 2 ^ 64)) (some p) in
        let first = add (heap p).side.cumulative_difficulty b.side.difficulty in
        let last =
          verify_sum-ends b p (check_uncles heap find b p mined first b.side.uncles)
            (check_uncles-ends b p mined first b.side.uncles) in
        ground (arith, last)

    -- Where every block is higher than its parent, verifyBlock ends: no walk back through the chain
    -- runs out of rounds, whatever the share and its uncles.
    pub verify_block-ends :
        (b : PoolBlock)
        → verify_block keccak lib c heap find tip current_difficulty get_difficulty get_shares
            ephemeral_public_key b
          ≢ fails looping
    unfolding verify_block verify_genesis
    verify_block-ends b e = elim (Option-cases (get_parent heap find b)) [
      | inl missing ↦ ground (arith, rw (missing, verify_block) at e)
      | inr (p, found) ↦ ground (arith, verify_on-ends b p, rw (found, verify_block) at e)
    ]
