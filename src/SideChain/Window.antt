-- ===== src/SideChain/Window.antt =====
-- The PPLNS window of p2pool/sidechain/utils.go: the shares that a block pays, newest first.
pub mod Termination
use Prim.Native.Nat.{Ordering}
use p2pool_observer.Prelude.{
  ℕ, zero, suc, ◌+◌, ◌-◌, ◌*◌, ◌%◌, ◌^◌, Bool, true, false, ◌||◌, not, Option, none, some, List, [],
  ◌∷◌, ◌++◌, ltb, leb, ◌==◌, if◌then◌else◌, length,
}
use p2pool_observer.Codec.{
  Result, ok, err, panic, stuck, missing_difficulty, missing_uncle, missing_parent,
}
use p2pool_observer.Types.Uint128.{Difficulty, Uint128}
use p2pool_observer.Types.Difficulty.{zero_difficulty, max_difficulty, same, cmp, add, mul64}
use p2pool_observer.Types.Hash.{bytes_eq, zero_hash}
use p2pool_observer.Utils.SeedHeight.{seed_height}
use p2pool_observer.SideChain.SideData.{SideData, share_version_v1}
use p2pool_observer.SideChain.PoolBlock.{PoolBlock, IterationCache}
use p2pool_observer.SideChain.Penalty.{apply_uncle_penalty}

-- What the loops change: the weight of the share at hand, the weight of the window so far, and the
-- calls of addWeightFunc so far.
pub record WindowState : Type 0 where
  pub cur_weight : Difficulty
  pub pplns_weight : Difficulty
  pub calls : List (PoolBlock × Difficulty)

-- `a.Cmp(b) > 0`
unfoldable pub above : Difficulty → Difficulty → Bool
above a b = elim (cmp a b) [ Ordering.lt ↦ false | Ordering.eq ↦ false | Ordering.gt ↦ true ]

-- `heap` holds the blocks behind the pointers.
module _ (heap : ℕ → PoolBlock) (get_by_template_id : List ℕ → Option PoolBlock) where
  -- PoolBlock.iteratorGetParent
  unfoldable pub iterator_get_parent : PoolBlock → Option PoolBlock
  iterator_get_parent b = elim b.iteration_cache [
    | none ↦ get_by_template_id b.side.parent
    | some c ↦ elim c.parent [ none ↦ none | some p ↦ some (heap p) ]
  ]

  unfoldable pub uncles_by_id : {S : Type 0} → (PoolBlock → S → S) → List (List ℕ) → S → Option S
  uncles_by_id f [] s = some s
  uncles_by_id f (id ∷ ids) s = elim (get_by_template_id id) [
    | none ↦ none
    | some uncle ↦ uncles_by_id f ids (f uncle s)
  ]

  unfoldable pub cached_uncles : {S : Type 0} → (PoolBlock → S → S) → List ℕ → S → S
  cached_uncles f [] s = s
  cached_uncles f (p ∷ ps) s = cached_uncles f ps (f (heap p) s)

  -- PoolBlock.iteratorUncles; `none` is an uncle that is not found.
  unfoldable pub iterator_uncles : {S : Type 0} → (PoolBlock → S → S) → PoolBlock → S → Option S
  iterator_uncles f b s = if length b.side.uncles == 0 then some s else elim b.iteration_cache [
    | none ↦ uncles_by_id f b.side.uncles s
    | some c ↦ some (cached_uncles f c.uncles s)
  ]

  module _ (lib : Uint128) (chain_window_size uncle_penalty tip_height : ℕ)
      (max_weight : Difficulty) where
    -- The function that BlocksInPPLNSWindow hands to iteratorUncles.
    unfoldable pub count_uncle : PoolBlock → WindowState → WindowState
    count_uncle uncle s =
        let parts = apply_uncle_penalty lib uncle_penalty uncle.side.difficulty in
        let new_weight = add s.pplns_weight parts.0 in
        if leb chain_window_size ((tip_height + 2 ^ 64 - uncle.side.height) % 2 ^ 64)
          || above new_weight max_weight
        then s
        else record {
          cur_weight = add s.cur_weight parts.1;
          pplns_weight = new_weight;
          calls = s.calls ++ ((uncle, parts.0) ∷ []);
        }

    -- The loop of BlocksInPPLNSWindow, with the depth, the weight and the calls so far; the depth does
    -- not reach the window size, so it cannot wrap.
    unfoldable pub window_loop :
        ℕ
        → PoolBlock
        → ℕ
        → Difficulty
        → List (PoolBlock × Difficulty)
        → Result (ℕ × List (PoolBlock × Difficulty))
    window_loop zero cur depth weight calls = stuck
    window_loop (suc fuel) cur depth weight calls =
        elim (iterator_uncles count_uncle cur
          (record { cur_weight = cur.side.difficulty; pplns_weight = weight; calls = calls })) [
            | none ↦ err missing_uncle
            | some s ↦
                let calls' = s.calls ++ ((cur, s.cur_weight) ∷ []) in
                let weight' = add s.pplns_weight s.cur_weight in
                elim (above weight' max_weight
                  || leb chain_window_size (depth + 1)
                  || cur.side.height == 0) [
                    | true ↦ ok (cur.side.height, calls')
                    | false ↦ elim (iterator_get_parent cur) [
                      | none ↦ err missing_parent
                      | some parent ↦ window_loop fuel parent (depth + 1) weight' calls'
                    ]
                  ]
          ]

  -- BlocksInPPLNSWindow: the bottom height, and the calls of addWeightFunc. The loop runs at least
  -- once, and at most as often as the window is long.
  unfoldable pub blocks_in_pplns_window :
      Uint128 → ℕ → ℕ → (ℕ → Difficulty) → PoolBlock → Result (ℕ × List (PoolBlock × Difficulty))
  blocks_in_pplns_window lib chain_window_size uncle_penalty difficulty_by_height tip =
      let has_parent = not (bytes_eq tip.side.parent zero_hash) in
      let mainchain_difficulty =
        if has_parent
        then difficulty_by_height (seed_height tip.main.coinbase.gen_height)
        else zero_difficulty in
      let max_weight =
        if ltb share_version_v1 tip.cached_share_version
        then mul64 mainchain_difficulty 2
        else max_difficulty in
      let window =
        window_loop lib chain_window_size uncle_penalty tip.side.height max_weight
          (suc chain_window_size) tip 0 zero_difficulty [] in
      if has_parent
      then (if same mainchain_difficulty zero_difficulty then err missing_difficulty else window)
      else window
