-- ===== src/SideChain/Outputs/Verified.antt =====
-- The outputs of CalculateOutputs pass the checks of verifyBlock.
use p2pool_observer.Prelude.{
  ℕ, suc, ◌+◌, ◌≡◌, refl, sym, ap, ◌∙◌, arith, inl, inr, Bool, true, false, not, ◌&&◌, Option, none,
  some, List, [], ◌∷◌, ◌==◌, ==_iff, ==_refl, length, map, Bool-cases,
}
use p2pool_observer.Codec.{Result, ok}
use p2pool_observer.Types.Uint128.{Difficulty, Uint128, value}
use p2pool_observer.Types.Difficulty.{zero_difficulty}
use p2pool_observer.Types.Hash.Order.{bytes_eq_refl}
use p2pool_observer.Utils.NthElement.{then_result}
use p2pool_observer.Transaction.Output.{Output}
use p2pool_observer.SideChain.Share.{Share, PackedAddress}
use p2pool_observer.SideChain.Reward.{total_weight, given_total, split_loop, split_reward}
use p2pool_observer.SideChain.PoolBlock.{PoolBlock, transaction_output_type}
use p2pool_observer.SideChain.Consensus.{Consensus}
use p2pool_observer.SideChain.Verdict.{NextDifficulty, verified}
use p2pool_observer.SideChain.Uncles.Ancestors.{passes}
use p2pool_observer.SideChain.Verify.{outputs_match, verify_payout}
use p2pool_observer.SideChain.Outputs.{outputs_from, outputs_of, calculate_outputs, with_outputs}

result_eq : {A : Type 0} (x y : A) → ok x ≡ ok y → x ≡ y
result_eq x y h = cc

none-some : {A : Type 0} {a : A} → ◌≡◌ {A = Option A} none (some a) → ⊥
none-some h = cc

-- Rewards that are split sum to what is split.
split_reward-sum :
    (lib : Uint128) (total : ℕ) (shares : List Share) (rewards : List ℕ)
    → split_reward lib total shares ≡ some rewards
    → given_total 0 rewards ≡ total
unfolding split_reward
split_reward-sum lib total shares rewards e =
    let weight = total_weight zero_difficulty shares in
    let given = split_loop lib total weight zero_difficulty 0 shares in
    let (some_weight, e1) = passes (lib.equals64 weight 0) none-some e in
    elim (Bool-cases (given_total 0 given == total)) [
      | inl exact ↦
          let same : some given ≡ some rewards = rw exact at e1 in
          let given_rewards : given ≡ rewards = cc in rw (sym given_rewards) ((==_iff _ _).0 exact)
      | inr wrong ↦ absurd (none-some (rw wrong at e1))
    ]

-- No shares have no rewards.
split_reward-nil :
    (lib : Uint128) (total : ℕ) (shares : List Share) (rewards : List ℕ)
    → split_reward lib total shares ≡ some rewards
    → (length shares == 0) ≡ false
unfolding split_reward total_weight value
split_reward-nil lib total [] rewards e =
    let (some_weight, e1) = passes (lib.equals64 zero_difficulty 0) none-some e in
    absurd (let zero = lib.equals64_lem zero_difficulty 0 (omega arith) (omega arith) in cc)
split_reward-nil lib total (s ∷ ss) rewards e = ground arith

module _ (ephemeral_public_key : PackedAddress → List ℕ → ℕ → List ℕ × ℕ) where
  length-outputs_from :
      (b : PoolBlock) (i : ℕ) (shares : List Share) (rewards : List ℕ)
      → length rewards ≡ length shares
      → (length (outputs_from ephemeral_public_key b i shares rewards) ≡ length shares)
        × (map (λ o. o.reward) (outputs_from ephemeral_public_key b i shares rewards) ≡ rewards)
  unfolding outputs_from
  length-outputs_from b i [] [] e = (refl, refl)
  length-outputs_from b i [] (r ∷ rs) e = absurd (omega (arith, e))
  length-outputs_from b i (s ∷ ss) [] e = absurd (omega (arith, e))
  length-outputs_from b i (s ∷ ss) (r ∷ rs) e =
      let (same_length, same_rewards) = length-outputs_from b (i + 1) ss rs (omega (arith, e)) in
      (ap suc same_length, ap (◌∷◌ r) same_rewards)

  outputs_of-some :
      (b : PoolBlock) (shares : List Share) (n : ℕ) (o : Option (List ℕ)) (outputs : List Output)
      (bottom_height : ℕ)
      → outputs_of ephemeral_public_key b shares n o ≡ (some outputs, bottom_height)
      → (rewards : List ℕ) × (o ≡ some rewards)
        × (length rewards ≡ length shares)
        × (outputs ≡ outputs_from ephemeral_public_key b 0 shares rewards)
  unfolding outputs_of
  outputs_of-some b shares n none outputs bottom_height e = absurd (none-some (ap (λ r. r.0) e))
  outputs_of-some b shares n (some rewards) outputs bottom_height e =
      elim (Bool-cases (length rewards == length shares)) [
        | inl same ↦
            let made : some (outputs_from ephemeral_public_key b 0 shares rewards) ≡ some outputs =
              ap (λ r. r.0) (rw same at e) in
            (rewards, refl, (==_iff _ _).0 same, cc)
        | inr differ ↦ absurd (none-some (ap (λ r. r.0) (rw differ at e)))
      ]

  module _ (keccak : List ℕ → List ℕ) (lib : Uint128) (c : Consensus) (heap : ℕ → PoolBlock)
      (find : List ℕ → Option ℕ) (tip : Option ℕ) (current_difficulty : Difficulty)
      (get_difficulty : ℕ → NextDifficulty) (shares_of : PoolBlock → List Share) where
    matches :
        (b b' : PoolBlock) (i : ℕ) (shares : List Share) (rewards : List ℕ)
        → b'.side ≡ b.side
        → outputs_match keccak lib c heap find tip current_difficulty get_difficulty shares_of
            ephemeral_public_key b' i shares rewards
            (outputs_from ephemeral_public_key b i shares rewards)
          ≡ true
    unfolding outputs_match outputs_from
    matches b b' i [] rs e = refl
    matches b b' i (s ∷ ss) [] e = refl
    matches b b' i (s ∷ ss) (r ∷ rs) e =
        let key = ephemeral_public_key s.address b.side.coinbase_private_key i in
        rw (e, ==_refl r, bytes_eq_refl key.0, ==_refl key.1)
          (passes_tag (transaction_output_type b == 3) (matches b b' (i + 1) ss rs e))
      where
        passes_tag : (t : Bool) {rest : Bool} → rest ≡ true → (not (t && false) && rest) ≡ true
        passes_tag true h = h
        passes_tag false h = h

    -- The checks pass, one after another.
    payout :
        (b' : PoolBlock) (shares : List Share) (rewards : List ℕ)
        → shares_of b' ≡ shares
        → (length shares == 0) ≡ false
        → length shares ≡ length b'.main.coinbase.outputs
        → length rewards ≡ length b'.main.coinbase.outputs
        → given_total 0 (map (λ o. o.reward) b'.main.coinbase.outputs)
          ≡ b'.main.coinbase.total_reward
        → split_reward lib b'.main.coinbase.total_reward shares ≡ some rewards
        → outputs_match keccak lib c heap find tip current_difficulty get_difficulty shares_of
            ephemeral_public_key b' 0 shares rewards b'.main.coinbase.outputs
          ≡ true
        → verify_payout keccak lib c heap find tip current_difficulty get_difficulty shares_of
            ephemeral_public_key b'
          ≡ verified
    unfolding verify_payout
    payout b' shares rewards same some_shares as_many given sums split fit =
        rw
          (
            same,
            some_shares,
            as_many,
            ==_refl (length b'.main.coinbase.outputs),
            sums,
            ==_refl b'.main.coinbase.total_reward,
            split,
            verify_payout,
            given,
            ==_refl (length b'.main.coinbase.outputs),
            same,
            fit,
          )
          refl

    -- The outputs that CalculateOutputs gives a share pass the last checks of verifyBlock, where GetShares
    -- has the same shares for the share with these outputs as without them.
    pub calculate_outputs-verified :
        (get_shares : PoolBlock → Result (List Share × ℕ)) (b : PoolBlock) (shares : List Share)
        (n : ℕ) (outputs : List Output) (bottom_height : ℕ)
        → get_shares b ≡ ok (shares, n)
        → shares_of (with_outputs b outputs) ≡ shares
        → calculate_outputs ephemeral_public_key lib get_shares b ≡ ok (some outputs, bottom_height)
        → verify_payout keccak lib c heap find tip current_difficulty get_difficulty shares_of
            ephemeral_public_key
            (with_outputs b outputs)
          ≡ verified
    unfolding calculate_outputs then_result with_outputs
    calculate_outputs-verified get_shares b shares n outputs bottom_height had same e =
        let (rewards, split, as_many, computed) =
          outputs_of-some b shares n _ outputs bottom_height (result_eq _ _ (rw had at e)) in
        let (same_length, same_rewards) = length-outputs_from b 0 shares rewards as_many in
        let total = split_reward-sum lib b.main.coinbase.total_reward shares rewards split in
        payout (with_outputs b outputs) shares rewards same
          (split_reward-nil lib b.main.coinbase.total_reward shares rewards split)
          (rw computed (sym same_length)) (rw computed (as_many ∙ sym same_length))
          (rw computed (rw same_rewards total)) split
          (rw computed (matches b _ 0 shares rewards refl))
