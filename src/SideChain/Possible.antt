-- ===== src/SideChain/Possible.antt =====
-- SideChain.GetPossibleUncles of p2pool/sidechain/sidechain.go.
pub mod Offered
use Prim.Native.Nat.{Ordering}
use p2pool_observer.Prelude.{
  ℕ, zero, suc, ◌+◌, ◌-◌, ◌%◌, ◌^◌, ◌≡◌, refl, inl, inr, Bool, true, false, Bool-cases, not, ◌||◌,
  Option, none, some, List, [], ◌∷◌, ◌++◌, All, All-append, ltb, min, if◌then◌else◌,
}
use p2pool_observer.Codec.{Result, ok, stuck}
use p2pool_observer.Utils.NthElement.{then_result}
use p2pool_observer.Types.Hash.{compare_hash}
use p2pool_observer.SideChain.PoolBlock.{PoolBlock, contains_hash}
use p2pool_observer.SideChain.Consensus.{uncle_block_depth}
use p2pool_observer.SideChain.Verdict.{is_lt}
use p2pool_observer.SideChain.Uncles.{walk_back, same_chain}
use p2pool_observer.SideChain.State.{
  ChainState, Rules, get_by_height, get_by_template_id, parent_of,
}
use p2pool_observer.SideChain.State.Health.{IsGood}
use p2pool_observer.SideChain.State.Outcomes.{OnOk, OnOk-then_result, OnOk-any}

-- The blocks from the tip down, and their uncles.
unfoldable pub mined_from : Rules → ChainState → ℕ → Option ℕ → List (List ℕ)
mined_from rules s zero tmp = []
mined_from rules s (suc n) none = []
mined_from rules s (suc n) (some p) =
    (rules.template_id (s.heap p) ∷ (s.heap p).side.uncles)
    ++ mined_from rules s n (parent_of s (s.heap p))

-- The function `sameChain` of the block at `u`; the walk has a round for every height.
unfoldable pub on_same_chain : ChainState → ℕ → ℕ → ℕ → Result Bool
on_same_chain s tip for_height u =
    let find = get_by_template_id s in
    let height = (s.heap u).side.height in
    elim (walk_back s.heap find (suc (s.heap tip).side.height) height tip) [
      | none ↦ stuck
      | some none ↦ ok false
      | some (some tmp) ↦
          if ltb (s.heap tmp).side.height height
          then ok false
          else ok (same_chain s.heap find uncle_block_depth for_height (some tmp) (some u))
    ]

module _ (rules : Rules) (s : ChainState) (tip for_height : ℕ) (mined : List (List ℕ)) where
  unfoldable pub is_unavailable : ℕ → Bool
  is_unavailable u =
      not (s.heap u).verified
      || (s.heap u).invalid
      || contains_hash mined (rules.template_id (s.heap u))

  -- The loop over the blocks of one height.
  unfoldable pub possible_of : List ℕ → Result (List (List ℕ))
  possible_of [] = ok []
  possible_of (u ∷ us) =
      let rest = possible_of us in
      if is_unavailable u
      then rest
      else then_result (on_same_chain s tip for_height u) (λ near.
        then_result rest (λ ids. ok (if near then rules.template_id (s.heap u) ∷ ids else ids)))

  -- The loop over the heights, from `h` down, with the rounds that are left.
  unfoldable pub possible_below : ℕ → ℕ → Result (List (List ℕ))
  possible_below zero h = ok []
  possible_below (suc n) h =
      then_result (possible_of (get_by_height s h))
        (λ ids. then_result (possible_below n (h - 1)) (λ rest. ok (ids ++ rest)))

-- slices.SortFunc on hashes
unfoldable pub insert_hash : List ℕ → List (List ℕ) → List (List ℕ)
insert_hash h [] = h ∷ []
insert_hash h (k ∷ ks) = if is_lt (compare_hash k h) then k ∷ insert_hash h ks else h ∷ k ∷ ks

unfoldable pub sort_hashes : List (List ℕ) → List (List ℕ)
sort_hashes [] = []
sort_hashes (h ∷ hs) = insert_hash h (sort_hashes hs)

-- SideChain.GetPossibleUncles; `stuck` is a walk that is longer than the tip's height.
unfoldable pub get_possible_uncles : Rules → ChainState → ℕ → ℕ → Result (List (List ℕ))
get_possible_uncles rules s tip for_height =
    let height = (s.heap tip).side.height in
    let n = min uncle_block_depth ((height + 1) % 2 ^ 64) in
    then_result (possible_below rules s tip for_height (mined_from rules s n (some tip)) n height)
      (λ ids. ok (sort_hashes ids))
