-- ===== src/Examples/Verifying.antt =====
-- The genesis is verified, and the loop of verifyLoop over a fork ends.
use p2pool_observer.Prelude.{ℕ, zero, suc, ◌≡◌, refl, false, [], ◌∷◌}
use p2pool_observer.Codec.{ok}
use p2pool_observer.Types.Uint128.{exact, value}
use p2pool_observer.Types.Hash.{bytes_eq}
use p2pool_observer.SideChain.PoolBlock.{PoolBlock}
use p2pool_observer.SideChain.Verdict.{verified, is_eq}
use p2pool_observer.SideChain.Verify.{verify_block, verify_genesis}
use p2pool_observer.SideChain.State.{ChainState, get_by_template_id, find_id}
use p2pool_observer.SideChain.State.Health.{IsGood}
use p2pool_observer.SideChain.State.Falls.{Falls, CachesBelow}
use p2pool_observer.SideChain.VerifyLoop.{LoopState, verify_stack, verify_fuel, start}
use p2pool_observer.SideChain.Chain.{chain_verify_block}
use p2pool_observer.SideChain.Chain.Ends.{verify_stack-chain-accepts}
use p2pool_observer.Examples.Growing.{
  empty, arriving, checksum, consensus, high, main_height, in_order, same_key, rules,
}
use p2pool_observer.Examples.Uncles.{forked, forked_heap}

empty-Falls : Falls empty
unfolding get_by_template_id find_id CachesBelow
empty-Falls = record {
  found = λ a p e. absurd (cc);
  cached = λ a. elim a as (λ x. CachesBelow arriving (arriving x)) [
    | zero ↦ λ c p e f. absurd (cc)
    | suc n ↦ λ c p e f. absurd (cc)
  ];
}

genesis-accepted :
    chain_verify_block checksum exact consensus high main_height in_order same_key empty 0
    ≡ verified
unfolding chain_verify_block verify_block verify_genesis bytes_eq is_eq value
genesis-accepted = refl

verify_stack-chain-accepts_example :
    (l : LoopState) × (verify_stack rules (verify_fuel empty) 0 (0 ∷ []) (start empty) ≡ ok l)
    × IsGood (l.state.heap 0)
verify_stack-chain-accepts_example =
    verify_stack-chain-accepts checksum exact consensus high main_height in_order same_key 0 empty
      empty-Falls refl genesis-accepted

-- The fork before any of its blocks has a verdict.
abbrev unjudged_heap : ℕ → PoolBlock
unjudged_heap a = record (forked_heap a) { verified = false }

abbrev unjudged : ChainState
unjudged = record forked { heap = unjudged_heap }
