-- ===== src/SideChain/Verify/Pays.antt =====
-- The difficulty and the miner transaction of a share in the window that verifyBlock accepts.
use p2pool_observer.Prelude.{
  ℕ, ◌+◌, ◌-◌, ◌*◌, ◌%◌, ◌^◌, ◌<◌, ◌≡◌, ◌≢◌, refl, sym, ap, ap₂, ◌∙◌, arith, Bool, true, false, not,
  ◌&&◌, ◌⊎◌, inl, inr, Option, some, List, [], ◌∷◌, ltb, leb, ◌==◌, if◌then◌else◌, length, map,
  Bool-cases, Option-cases,
}
use p2pool_observer.Types.Uint128.{Difficulty, Uint128}
use p2pool_observer.Types.Difficulty.{same, zero_difficulty}
use p2pool_observer.Types.Hash.{bytes_eq, zero_hash}
use p2pool_observer.Types.Hash.Order.{bytes_eq→eq}
use p2pool_observer.Transaction.Output.{Output}
use p2pool_observer.SideChain.Share.{Share, PackedAddress}
use p2pool_observer.SideChain.Reward.{given_total, split_reward}
use p2pool_observer.SideChain.PoolBlock.{PoolBlock}
use p2pool_observer.SideChain.Consensus.{Consensus}
use p2pool_observer.SideChain.Verdict.{
  no_difficulty, difficulty_fails, wrong_difficulty, invalid, unverifiable, ascending, Failure,
  Check, goes_on, ends, Verdict, verified, fails, NextDifficulty, difficulty_of, not_yet, never,
}
use p2pool_observer.SideChain.Uncles.{get_parent}
use p2pool_observer.SideChain.Verify.{
  expected_seed, outputs_match, verify_payout, is_tip, verify_difficulty, verify_sum, verify_on,
  verify_block,
}
use p2pool_observer.SideChain.Uncles.Ancestors.{fails_ne, passes}

accepts : (t : Bool) (f : Failure) → (if t then verified else fails f) ≡ verified → t ≡ true
accepts true f h = refl
accepts false f h = absurd (fails_ne f h)

same-eq : (d v : Difficulty) → same d v ≡ true → d ≡ v
unfolding same
same-eq d v h = ground arith

and-true4 :
    (p q r s : Bool) → (p && q && r && s) ≡ true → (p ≡ true) × (q ≡ true) × (r ≡ true) × (s ≡ true)
and-true4 p q r s e = ground (arith, e)

==-eq : (m n : ℕ) → (n == m) ≡ true → m ≡ n
==-eq m n h = ground arith

tag_cases : (k v w : ℕ) → not (k == 3 && not (v == w)) ≡ true → (k ≢ 3) ⊎ (w ≡ v)
tag_cases k v w h = elim (Bool-cases (v == w)) [
  | inl equal ↦ inr (ground arith)
  | inr differ ↦ inl (λ y. absurd (ground (arith, y)))
]

module _ (keccak : List ℕ → List ℕ) (lib : Uint128) (c : Consensus) (heap : ℕ → PoolBlock)
    (find : List ℕ → Option ℕ) (tip : Option ℕ) (current_difficulty : Difficulty)
    (get_difficulty : ℕ → NextDifficulty) (get_shares : PoolBlock → List Share)
    (ephemeral_public_key : PackedAddress → List ℕ → ℕ → List ℕ × ℕ) where
  -- The outputs from an index on carry the keys of the shares.
  unfoldable pub Keyed : PoolBlock → ℕ → List Share → List Output → Type 0
  Keyed b i [] os = Unit {0}
  Keyed b i (s ∷ ss) [] = Unit {0}
  Keyed b i (s ∷ ss) (o ∷ os) =
      (o.ephemeral_public_key ≡ (ephemeral_public_key s.address b.side.coinbase_private_key i).0)
      × ((o.output_type ≢ 3)
          ⊎ (o.view_tag ≡ (ephemeral_public_key s.address b.side.coinbase_private_key i).1))
      × Keyed b (i + 1) ss os

  -- The miner transaction of a share pays what it must to whom it must.
  pub record Pays (b : PoolBlock) : Type 0 where
    pub rewards : List ℕ
    pub split : split_reward lib b.main.coinbase.total_reward (get_shares b) ≡ some rewards
    pub paid : map (λ o. o.reward) b.main.coinbase.outputs ≡ rewards
    pub count : length b.main.coinbase.outputs ≡ length (get_shares b)
    pub keyed : Keyed b 0 (get_shares b) b.main.coinbase.outputs

  outputs_match-Keyed :
      (b : PoolBlock) (i : ℕ) (ss : List Share) (rs : List ℕ) (os : List Output)
      → length ss ≡ length os
      → length rs ≡ length os
      → outputs_match keccak lib c heap find tip current_difficulty get_difficulty get_shares
          ephemeral_public_key b i ss rs os
        ≡ true
      → (map (λ o. o.reward) os ≡ rs) × Keyed b i ss os
  unfolding outputs_match Keyed
  outputs_match-Keyed b i [] [] [] l m e = (refl, tt)
  outputs_match-Keyed b i [] rs (o ∷ os) l m e = absurd (omega arith)
  outputs_match-Keyed b i [] (r ∷ rs) [] l m e = absurd (omega arith)
  outputs_match-Keyed b i (s ∷ ss) rs [] l m e = absurd (omega arith)
  outputs_match-Keyed b i (s ∷ ss) [] (o ∷ os) l m e = absurd (omega arith)
  outputs_match-Keyed b i (s ∷ ss) (r ∷ rs) (o ∷ os) l m e =
      let key = ephemeral_public_key s.address b.side.coinbase_private_key i in
      let (reward, eph, tag, rest) =
        and-true4 (r == o.reward) (bytes_eq key.0 o.ephemeral_public_key)
          (not (o.output_type == 3 && not (key.1 == o.view_tag))) _ e in
      let (paid, keyed) = outputs_match-Keyed b (i + 1) ss rs os (omega arith) (omega arith) rest in
      (
        ap₂ ◌∷◌ (==-eq o.reward r reward) paid,
        (
          sym (bytes_eq→eq key.0 o.ephemeral_public_key eph),
          tag_cases o.output_type key.1 o.view_tag tag,
          keyed,
        ),
      )

  verify_payout-Pays :
      (b : PoolBlock)
      → verify_payout keccak lib c heap find tip current_difficulty get_difficulty get_shares
          ephemeral_public_key b
        ≡ verified
      → Pays b
  unfolding verify_payout
  verify_payout-Pays b e =
      let shares = get_shares b in
      let outputs = b.main.coinbase.outputs in
      let total = given_total 0 (map (λ o. o.reward) outputs) in
      let (some_shares, e1) = passes (length shares == 0) (fails_ne _) e in
      let (counted, e2) = passes (not (length shares == length outputs)) (fails_ne _) e1 in
      let (summed, e3) = passes (not (total == b.main.coinbase.total_reward)) (fails_ne _) e2 in
      elim (Option-cases (split_reward lib total shares)) [
        | inl none_given ↦ absurd (fails_ne _ (rw (none_given, verify_payout) at e3))
        | inr (rewards, given) ↦
            let (paid_count, e4) =
              passes (not (length rewards == length outputs)) (fails_ne _)
                (rw (given, verify_payout) at e3) in
            let same_count : length shares ≡ length outputs = ground (arith, counted) in
            let same_total : total ≡ b.main.coinbase.total_reward = ground (arith, summed) in
            let (paid, keyed) =
              outputs_match-Keyed b 0 shares rewards outputs same_count (ground (arith, paid_count))
                (accepts _ _ e4) in
            record {
              rewards = rewards;
              split = ap (λ t. split_reward lib t shares) (sym same_total) ∙ given;
              paid = paid;
              count = sym same_count;
              keyed = keyed;
            }
      ]

  -- The difficulty that the chain demands on top of a block.
  pub data Demanded (p : ℕ) (b : PoolBlock) : Type 0 where
    of_tip :
        is_tip keccak lib c heap find tip current_difficulty get_difficulty get_shares
            ephemeral_public_key p
          ≡ true
        → current_difficulty ≡ b.side.difficulty
        → Demanded p b
    of_block : get_difficulty p ≡ difficulty_of b.side.difficulty → Demanded p b

  verify_difficulty-Pays :
      (b : PoolBlock) (p : ℕ)
      → verify_difficulty keccak lib c heap find tip current_difficulty get_difficulty get_shares
          ephemeral_public_key b p
        ≡ verified
      → Demanded p b × Pays b
  unfolding verify_difficulty
  verify_difficulty-Pays b p e = elim (Bool-cases on_tip) [
    | inl top ↦
        let (equal, e1) =
          chosen (same current_difficulty b.side.difficulty) _ _
            (rw (top, verify_difficulty) at e) in
        (of_tip top (same-eq _ _ equal), verify_payout-Pays b e1)
    | inr lower ↦ on_block (get_difficulty p) refl (rw (lower, verify_difficulty) at e)
  ]
    where
      on_tip : Bool
      on_tip =
          is_tip keccak lib c heap find tip current_difficulty get_difficulty get_shares
            ephemeral_public_key p

      payout : Verdict
      payout =
          verify_payout keccak lib c heap find tip current_difficulty get_difficulty get_shares
            ephemeral_public_key b

      chosen :
          (t : Bool) (v : Verdict) (f : Failure)
          → (if t then v else fails f) ≡ verified
          → (t ≡ true) × (v ≡ verified)
      chosen true v f h = (refl, h)
      chosen false v f h = absurd (fails_ne _ h)

      on_block :
          (n : NextDifficulty)
          → get_difficulty p ≡ n
          → elim n [
            | not_yet ↦ fails (unverifiable difficulty_fails)
            | never ↦ fails (invalid difficulty_fails)
            | difficulty_of d ↦
                if same d zero_difficulty
                then fails (invalid no_difficulty)
                else if same d b.side.difficulty
                then payout
                else fails (invalid wrong_difficulty)
          ]
            ≡ verified
          → Demanded p b × Pays b
      on_block not_yet at_p h = absurd (fails_ne _ h)
      on_block never at_p h = absurd (fails_ne _ h)
      on_block (difficulty_of d) at_p h =
          let (some_difficulty, h1) = passes (same d zero_difficulty) (fails_ne _) h in
          let (equal, h2) = chosen (same d b.side.difficulty) _ _ h1 in
          (of_block (at_p ∙ ap difficulty_of (same-eq d _ equal)), verify_payout-Pays b h2)

  verify_on-Pays :
      (b : PoolBlock) (p : ℕ)
      → b.depth < c.chain_window_size
      → verify_on keccak lib c heap find tip current_difficulty get_difficulty get_shares
          ephemeral_public_key b p
        ≡ verified
      → Demanded p b × Pays b
  unfolding verify_on verify_sum
  verify_on-Pays b p near e =
      let (checked, e1) = passes (not (heap p).verified) (fails_ne _) e in
      let (valid, e2) = passes (heap p).invalid (fails_ne _) e1 in
      let (seeded, e3) =
        passes
          (ltb 1 b.cached_share_version
            && not (bytes_eq b.side.coinbase_private_key_seed (expected_seed keccak b (heap p))))
          (fails_ne _) e2 in
      let (next, e4) =
        passes (not (((heap p).side.height + 1) % 2 ^ 64 == b.side.height)) (fails_ne _) e3 in
      let (sorted, e5) = passes (not (ascending b.side.uncles)) (fails_ne _) e4 in summed _ e5
    where
      summed :
          (k : Check)
          → verify_sum keccak lib c heap find tip current_difficulty get_difficulty get_shares
              ephemeral_public_key b p k
            ≡ verified
          → Demanded p b × Pays b
      summed (ends f) h = absurd (fails_ne f h)
      summed (goes_on d) h =
          let (equal, h1) =
            passes (not (lib.equals b.side.cumulative_difficulty d)) (fails_ne _) h in
          let deep : leb c.chain_window_size b.depth ≡ false = ground (arith, near) in
          verify_difficulty-Pays b p (rw (deep, verify_sum) at h1)

  -- A share above the genesis height and inside the window that verifyBlock accepts has the difficulty
  -- that the chain demands on top of its parent, and its miner transaction has one output for each
  -- share of the window, with the reward that SplitReward gives out of the total reward and the key, and
  -- where the output has one the view tag, of the share's address.
  pub verify_block-Pays :
      (b : PoolBlock)
      → c.chain_window_size < 2 ^ 62
      → 0 < b.side.height
      → b.depth < c.chain_window_size
      → verify_block keccak lib c heap find tip current_difficulty get_difficulty get_shares
          ephemeral_public_key b
        ≡ verified
      → (p : ℕ) × (get_parent heap find b ≡ some p) × Demanded p b × Pays b
  unfolding verify_block
  verify_block-Pays b small above near e =
      let (has_id, e1) =
        passes (bytes_eq b.side.parent zero_hash) (fails_ne _)
          (rw (not_genesis, verify_block, shallow) at e) in
      elim (Option-cases (get_parent heap find b)) [
        | inl missing ↦ absurd (fails_ne _ (rw (missing, verify_block) at e1))
        | inr (p, found) ↦
            let (demanded, pays) = verify_on-Pays b p near (rw (found, verify_block) at e1) in
            (p, found, demanded, pays)
      ]
    where
      not_genesis : (b.side.height == 0) ≡ false
      not_genesis = ground (arith, above)

      shallow : ltb (((c.chain_window_size + 2 ^ 64 - 1) % 2 ^ 64 * 2 + 3) % 2 ^ 64) b.depth ≡ false
      shallow = ground (arith, near, small)
