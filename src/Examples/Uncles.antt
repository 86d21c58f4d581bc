-- ===== src/Examples/Uncles.antt =====
-- A fork of two blocks, one of which is the tip's parent and the other a possible uncle.
use p2pool_observer.Prelude.{
  ℕ, zero, suc, ◌+◌, ◌-◌, ◌%◌, ◌^◌, ◌<◌, ◌≡◌, refl, sym, arith, true, false, some, List, [], ◌∷◌,
  All, min,
}
use p2pool_observer.Codec.{ok}
use p2pool_observer.Types.Hash.{zero_hash, bytes_eq}
use p2pool_observer.Utils.NthElement.{then_result}
use p2pool_observer.SideChain.PoolBlock.{PoolBlock, contains_hash}
use p2pool_observer.SideChain.Consensus.{uncle_block_depth}
use p2pool_observer.SideChain.State.{
  ChainState, Rules, get_by_height, parent_of, list_of, find_height, get_by_template_id, find_id,
}
use p2pool_observer.SideChain.Uncles.{walk_back, same_chain, get_parent}
use p2pool_observer.SideChain.Possible.{
  mined_from, get_possible_uncles, possible_below, possible_of, is_unavailable, on_same_chain,
  sort_hashes, insert_hash,
}
use p2pool_observer.SideChain.Possible.Offered.{Descends, Offered, get_possible_uncles-Offered}
use p2pool_observer.Examples.Blocks.{share}
use p2pool_observer.Examples.Growing.{empty, rules}

abbrev at_height : ℕ → List ℕ → List ℕ → PoolBlock
at_height height name parent = record share {
  side = record share.side {
    spend_public_key = name;
    parent = parent;
    uncles = [];
    height = height;
  };
  verified = true;
  invalid = false;
}

abbrev pub forked_heap : ℕ → PoolBlock
forked_heap zero = at_height 6 (3 ∷ []) (1 ∷ [])
forked_heap (suc zero) = at_height 5 (1 ∷ []) zero_hash
forked_heap (suc (suc a)) = at_height 5 (2 ∷ []) zero_hash

abbrev pub forked : ChainState
forked = record empty {
  heap = forked_heap;
  blocks_by_template_id = (3 ∷ [], 0) ∷ (1 ∷ [], 1) ∷ (2 ∷ [], 2) ∷ [];
  blocks_by_height = (6, 0 ∷ []) ∷ (5, 1 ∷ 2 ∷ []) ∷ [];
}

-- Blocks that are told apart by their wallets.
abbrev named_rules : Rules
named_rules = record rules { template_id = λ b. b.side.spend_public_key }

one_uncle : get_possible_uncles named_rules forked 0 7 ≡ ok ((2 ∷ []) ∷ [])
unfolding get_possible_uncles then_result possible_below possible_of is_unavailable mined_from
    on_same_chain sort_hashes insert_hash get_by_height list_of find_height get_by_template_id
    find_id parent_of contains_hash bytes_eq walk_back same_chain get_parent
one_uncle = refl

forked-Descends : Descends forked
unfolding Descends parent_of get_by_template_id find_id bytes_eq
forked-Descends zero p e = let found : 1 ≡ p = cc in rw (sym found) (omega arith)
forked-Descends (suc zero) p e = absurd (cc)
forked-Descends (suc (suc a)) p e = absurd (cc)

get_possible_uncles-Offered_example :
    (ids : List (List ℕ)) × (get_possible_uncles named_rules forked 0 7 ≡ ok ids)
    × All
        (λ id.
          (i : ℕ) × (i < 3)
          × Offered named_rules forked 0 7
              (mined_from named_rules forked
                (min uncle_block_depth (((forked.heap 0).side.height + 1) % 2 ^ 64))
                (some 0))
              (get_by_height forked ((forked.heap 0).side.height - i))
              id)
        ids
get_possible_uncles-Offered_example =
    get_possible_uncles-Offered named_rules forked 0 7 forked-Descends
