-- ===== src/SideChain/Chain/Ends.antt =====
-- verifyLoop with the chain's own verifyBlock and isLongerChain.
use Prim.Native.Nat.{Ordering}
use p2pool_observer.Prelude.{ℕ, ◌≡◌, false, Option, List, [], ◌∷◌}
use p2pool_observer.Codec.{ok}
use p2pool_observer.Types.Uint128.{Difficulty, Uint128}
use p2pool_observer.SideChain.Share.{Share, PackedAddress}
use p2pool_observer.SideChain.Consensus.{Consensus}
use p2pool_observer.SideChain.Verdict.{verified}
use p2pool_observer.SideChain.State.{ChainState, Rules}
use p2pool_observer.SideChain.State.Health.{IsGood}
use p2pool_observer.SideChain.State.Falls.{Falls}
use p2pool_observer.SideChain.VerifyLoop.{LoopState, verify_stack, verify_fuel, start}
use p2pool_observer.SideChain.VerifyLoop.Accepts.{verify_stack-accepts}
use p2pool_observer.SideChain.Chain.{chain_rules, chain_verify_block}
use p2pool_observer.SideChain.Chain.Lawful.{chain_rules-IsLawful}
use p2pool_observer.SideChain.Chain.Answers.{chain_rules-IsAnswering}

module _ (keccak : List ℕ → List ℕ) (lib : Uint128) (c : Consensus)
    (difficulty_by_height : ℕ → Difficulty) (main_height : List ℕ → Option ℕ)
    (sort_func : (Share → Share → Ordering) → List Share → List Share)
    (ephemeral_public_key : PackedAddress → List ℕ → ℕ → List ℕ × ℕ) where
  abbrev rules : Rules
  rules = chain_rules keccak lib c difficulty_by_height main_height sort_func ephemeral_public_key

  -- In a state in which each block's parent, in its cache or found by its id, is at a lower height than the
  -- block, the loop of verifyLoop that begins with a block without a verdict, which verifyBlock accepts, ends
  -- within its rounds with that block verified and valid.
  pub verify_stack-chain-accepts :
      (a : ℕ) (s : ChainState)
      → Falls s
      → (s.heap a).verified ≡ false
      → chain_verify_block keccak lib c difficulty_by_height main_height sort_func
          ephemeral_public_key s a
        ≡ verified
      → (l : LoopState) × (verify_stack rules (verify_fuel s) a (a ∷ []) (start s) ≡ ok l)
        × IsGood (l.state.heap a)
  unfolding chain_rules
  verify_stack-chain-accepts a s falls fresh accepted =
      verify_stack-accepts rules
        (chain_rules-IsLawful keccak lib c difficulty_by_height main_height sort_func
          ephemeral_public_key)
        a s
        (chain_rules-IsAnswering keccak lib c difficulty_by_height main_height sort_func
          ephemeral_public_key)
        falls fresh accepted
