-- ===== src/SideChain/External/Checked.antt =====
-- What AddPoolBlockExternal has checked of a share that it adds.
use p2pool_observer.Prelude.{
  ℕ, ◌≤◌, ◌≡◌, refl, arith, ◌+◌, ◌%◌, ◌^◌, ◌⊎◌, inl, inr, ==_iff, Option-cases, Bool, true, false,
  not, ◌&&◌, Option, none, some, List, ◌∷◌, ltb, ltb→le, leb, if◌then◌else◌, Bool-cases,
}
use p2pool_observer.Codec.{Result, ok, err, panic, stuck}
use p2pool_observer.Types.ProofOfWork.{check_pow}
use p2pool_observer.Types.Hash.{bytes_eq, hash_from_bytes}
use p2pool_observer.Types.Hash.Order.{bytes_eq→eq}
use p2pool_observer.Utils.NthElement.{then_result}
use p2pool_observer.Block.Emission.{tail_emission_reward}
use p2pool_observer.SideChain.PoolBlock.{
  PoolBlock, hard_fork_view_tags_version, coinbase_template_id, transaction_output_type,
}
use p2pool_observer.SideChain.Verdict.{is_lt}
use p2pool_observer.SideChain.Uncles.Ancestors.{not-false, passes}
use p2pool_observer.SideChain.State.{ChainState, Rules, submit_block}
use p2pool_observer.SideChain.State.Outcomes.{OnOk, OnOk-any, OnOk-map, OnOk-get, OnOk-then_result}
use p2pool_observer.SideChain.Prune.{is_known}
use p2pool_observer.SideChain.AddBlock.{AddError}
use p2pool_observer.SideChain.Missing.{block_unsee}
use p2pool_observer.SideChain.External.Hard.{IsHard, too_low-IsHard}
use p2pool_observer.SideChain.External.{
  Rejection, not_enough_pow, Outcome, rejected, added, Outside, has_deterministic_keys, pow_hash,
  is_higher_main_chain, all_of_type, too_low, wrong_height, check_proof, check_low, check_processed,
  after_preprocess, add_pool_block_external,
}

-- A proposition that holds where the outcome is that a share was added.
abbrev WhereAdded : Type 0 → ChainState × Outcome → Type 0
WhereAdded P r = (missing : List (List ℕ)) (e : AddError) → r.1 ≡ added missing e → P

rejected-WhereAdded :
    (P : Type 0) (s : ChainState) (r : Rejection) (ban : Bool) → WhereAdded P (s, rejected r ban)
rejected-WhereAdded P s r ban missing e h = absurd (cc)

module _ (rules : Rules) (outside : Outside) where
  -- The hash of the proof of work of a share is enough for its difficulty.
  pub record HasProof (b : PoolBlock) : Type 0 where
    pub hash : List ℕ
    pub hashed : pow_hash outside b ≡ ok (some hash)
    pub enough : check_pow outside.uint256_div b.side.difficulty hash ≡ true

  -- Where the previous block of the main chain is known, the share is at the next height.
  abbrev IsAtHeight : PoolBlock → Type 0
  IsAtHeight b =
      (outside.main_height_by_hash b.main.previous_id ≡ none)
      ⊎ ((h : ℕ) × (outside.main_height_by_hash b.main.previous_id ≡ some h)
          × ((h + 1) % 2 ^ 64 ≡ b.main.coinbase.gen_height))

  right_height-IsAtHeight :
      (b : PoolBlock)
      → wrong_height rules (outside.main_height_by_hash b.main.previous_id) b ≡ false
      → IsAtHeight b
  unfolding wrong_height
  right_height-IsAtHeight b e =
      elim (Option-cases (outside.main_height_by_hash b.main.previous_id)) [
        | inl unknown ↦ inl unknown
        | inr (h, known) ↦
            inr (h, known, (==_iff _ _).0 (not-false _ (rw (known, wrong_height) at e)))
      ]

  -- All that was checked of a share `b` in a state.
  pub record IsChecked (s : ChainState) (b : PoolBlock) : Type 0 where
    pub output_types : all_of_type (transaction_output_type b) b.main.coinbase.outputs ≡ true
    pub template : hash_from_bytes (coinbase_template_id b) ≡ rules.template_id b
    pub minimum :
        is_lt (outside.lib.cmp64 b.side.difficulty rules.consensus.minimum_difficulty) ≡ false
    pub unknown : is_known s (rules.template_id b) ≡ false
    pub difficulty : IsHard rules s b
    pub main_height : IsAtHeight b
    pub proof : HasProof b

  module _ (now fuel : ℕ) where
    check_proof-HasProof :
        (a : ℕ) (pow : Option (List ℕ)) (s : ChainState)
        → pow_hash outside (s.heap a) ≡ ok pow
        → OnOk (WhereAdded (HasProof (s.heap a))) (check_proof rules outside now fuel a pow s)
    unfolding check_proof
    check_proof-HasProof a none s e =
        OnOk-then_result (λ (t : ChainState). Unit {0}) (WhereAdded (HasProof (s.heap a)))
          (block_unsee (s.heap a) s) _ (OnOk-any _)
          (λ t k. rejected-WhereAdded (HasProof (s.heap a)) t _ false)
    check_proof-HasProof a (some pow) s e =
        elim (Bool-cases (check_pow outside.uint256_div (s.heap a).side.difficulty pow)) [
          | inl enough ↦ rw enough (proved _ (record { hash = pow; hashed = e; enough = enough }))
          | inr short ↦ rw short (
              rejected-WhereAdded (HasProof (s.heap a))
                (if is_higher_main_chain outside (s.heap a) pow
                  then record s { calls = submit_block a ∷ s.calls }
                  else s)
                not_enough_pow true)
        ]
      where
        proved :
            (r : Result (ChainState × Outcome))
            → HasProof (s.heap a)
            → OnOk (WhereAdded (HasProof (s.heap a))) r
        proved (ok r) p = λ missing e' h. p
        proved (err x) p = tt
        proved panic p = tt
        proved stuck p = tt

    hashed-HasProof :
        (a : ℕ) (s : ChainState) (r : Result (Option (List ℕ)))
        → pow_hash outside (s.heap a) ≡ r
        → OnOk
            (WhereAdded (HasProof (s.heap a)))
            (then_result r (λ pow. check_proof rules outside now fuel a pow s))
    unfolding then_result
    hashed-HasProof a s (ok pow) e = check_proof-HasProof a pow s e
    hashed-HasProof a s (err x) e = tt
    hashed-HasProof a s panic e = tt
    hashed-HasProof a s stuck e = tt

    -- What the checks from the anti-spam measure on leave of a share.
    abbrev Low : Bool → PoolBlock → Type 0
    Low low b = (low ≡ false) × IsAtHeight b × HasProof b

    check_low-HasProof :
        (a : ℕ) (low : Bool) (s : ChainState)
        → OnOk (WhereAdded (Low low (s.heap a))) (check_low rules outside now fuel a low s)
    unfolding check_low
    check_low-HasProof a true s = rejected-WhereAdded (Low true (s.heap a)) s _ false
    check_low-HasProof a false s =
        let b = s.heap a in
        elim (Bool-cases (wrong_height rules (outside.main_height_by_hash b.main.previous_id) b)) [
          | inl wrong ↦ rw wrong (rejected-WhereAdded (Low false b) s _ true)
          | inr right ↦ rw right (
              OnOk-map {P = WhereAdded (HasProof b)} {Q = WhereAdded (Low false b)}
                (λ r f missing e h. (refl, right_height-IsAtHeight b right, f missing e h))
                (then_result (pow_hash outside b)
                  (λ pow. check_proof rules outside now fuel a pow s))
                (hashed-HasProof a s (pow_hash outside b) refl))
        ]

    check_processed-IsChecked :
        (a : ℕ) (s : ChainState)
        → OnOk (WhereAdded (IsChecked s (s.heap a))) (check_processed rules outside now fuel a s)
    unfolding check_processed
    check_processed-IsChecked a s =
        let b = s.heap a in
        let reject = λ (r : Rejection). rejected-WhereAdded (IsChecked s b) s r true in
        let id = hash_from_bytes (coinbase_template_id b) in
        elim (Bool-cases (not (all_of_type (transaction_output_type b) b.main.coinbase.outputs))) [
          | inl mixed ↦ rw mixed (reject _)
          | inr types ↦ elim (Bool-cases (not (bytes_eq id (rules.template_id b)))) [
            | inl other ↦ rw (types, other) (reject _)
            | inr same ↦
                elim (Bool-cases (
                  is_lt (outside.lib.cmp64 b.side.difficulty rules.consensus.minimum_difficulty))) [
                    | inl below ↦ rw (types, same, below) (reject _)
                    | inr above ↦ elim (Bool-cases (is_known s id)) [
                      | inl known ↦ rw (types, same, above, known) (λ missing e h. absurd (cc))
                      | inr new ↦
                          rw (types, same, above, new)
                            (OnOk-then_result (λ (low : Bool). low ≡ false → IsHard rules s b)
                              (WhereAdded (IsChecked s b)) (too_low rules s b) _
                              (too_low-IsHard rules s b)
                              (λ low hard.
                                OnOk-map {P = WhereAdded (Low low b)}
                                  {Q = WhereAdded (IsChecked s b)}
                                  (λ r f missing e h.
                                    let (fine, height, proof) = f missing e h in
                                    record {
                                      output_types = not-false _ types;
                                      template = bytes_eq→eq _ _ (not-false _ same);
                                      minimum = above;
                                      unknown = rw (bytes_eq→eq _ _ (not-false _ same)) at new;
                                      difficulty = hard fine;
                                      main_height = height;
                                      proof = proof;
                                    })
                                  (check_low rules outside now fuel a low s)
                                  (check_low-HasProof a low s)))
                    ]
                  ]
          ]
        ]

    -- What the preprocessing must have returned.
    processed :
        (preprocess : ℕ → ChainState → Result (ChainState × Option (List (List ℕ)))) (a : ℕ)
        (s s' : ChainState) (missing : List (List ℕ)) (e : AddError)
        (r : Result (ChainState × Option (List (List ℕ))))
        → preprocess a s ≡ r
        → then_result r (λ k. after_preprocess rules outside now fuel a k)
          ≡ ok (s', added missing e)
        → (t : ChainState) × (preprocess a s ≡ ok (t, none)) × IsChecked t (t.heap a)
    unfolding then_result after_preprocess
    processed preprocess a s s' missing e (ok (t, none)) had h = (
      t,
      had,
      OnOk-get (WhereAdded (IsChecked t (t.heap a))) (check_processed rules outside now fuel a t)
          (s', added missing e) (check_processed-IsChecked a t) h missing e refl,
    )
    processed preprocess a s s' missing e (ok (t, some hashes)) had h = absurd (cc)
    processed preprocess a s s' missing e (err x) had h = absurd (cc)
    processed preprocess a s s' missing e panic had h = absurd (cc)
    processed preprocess a s s' missing e stuck had h = absurd (cc)

    not_added :
        (s s' : ChainState) (r : Rejection) (ban : Bool) (missing : List (List ℕ)) (e : AddError)
        → ◌≡◌ {A = Result (ChainState × Outcome)}
            (ok (s, rejected r ban))
            (ok (s', added missing e))
        → ⊥
    not_added s s' r ban missing e h = cc

    -- A share that AddPoolBlockExternal adds has at least the tail emission as its reward, from hard fork 15
    -- on its deterministic transaction keys, and, after PreprocessBlock, outputs of the expected type, the
    -- template id that its miner transaction names, at least the minimum difficulty, an id that is not
    -- known, a difficulty that is at least the current one or whose double by Mul64 is at least that of a
    -- share in the window of the tip's chain, the height after that of its previous block where the main
    -- chain knows that block, and a RandomX hash that is enough for its difficulty.
    pub add_pool_block_external-IsChecked :
        (preprocess : ℕ → ChainState → Result (ChainState × Option (List (List ℕ)))) (a : ℕ)
        (s s' : ChainState) (missing : List (List ℕ)) (e : AddError)
        → add_pool_block_external rules outside now fuel preprocess a s ≡ ok (s', added missing e)
        → (tail_emission_reward ≤ (s.heap a).main.coinbase.total_reward)
          × (15 ≤ (s.heap a).main.major_version → has_deterministic_keys outside (s.heap a) ≡ true)
          × ((t : ChainState) × (preprocess a s ≡ ok (t, none)) × IsChecked t (t.heap a))
    unfolding add_pool_block_external
    add_pool_block_external-IsChecked preprocess a s s' missing e h =
        let b = s.heap a in
        let (reward, h1) =
          passes (ltb b.main.coinbase.total_reward tail_emission_reward)
            (not_added s s' _ true missing e) h in
        let (keys, h2) =
          passes
            (leb hard_fork_view_tags_version b.main.major_version
              && not (has_deterministic_keys outside b))
            (not_added s s' _ true missing e) h1 in
        (
          ltb→le _ _ reward,
          λ late. ground (arith, keys, late),
          processed preprocess a s s' missing e (preprocess a s) refl h2,
        )
