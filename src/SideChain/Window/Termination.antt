-- ===== src/SideChain/Window/Termination.antt =====
-- The walk down the window ends.
use p2pool_observer.Prelude.{
  ℕ, zero, suc, ◌+◌, ◌<◌, ◌≡◌, refl, arith, Bool, true, false, ◌⊎◌, inl, inr, ◌++◌, if◌then◌else◌,
  Option, none, some, List, [], ◌∷◌, ltb, not,
}
use p2pool_observer.Codec.{Result, ok, err, panic, stuck, missing_difficulty}
use p2pool_observer.Types.Uint128.{Difficulty, Uint128}
use p2pool_observer.Types.Difficulty.{add, zero_difficulty, max_difficulty, mul64, same}
use p2pool_observer.Types.Hash.{bytes_eq, zero_hash}
use p2pool_observer.Utils.SeedHeight.{seed_height}
use p2pool_observer.SideChain.PoolBlock.{PoolBlock}
use p2pool_observer.SideChain.Window.{
  iterator_uncles, iterator_get_parent, count_uncle, window_loop, blocks_in_pplns_window,
}

-- The model's loop ran out of rounds.
unfoldable pub ran_out : {A : Type 0} → Result A → Bool
ran_out (ok a) = false
ran_out (err e) = false
ran_out panic = false
ran_out stuck = true

option_cases : {A : Type 0} (o : Option A) → (o ≡ none) ⊎ ((a : A) × (o ≡ some a))
option_cases none = inl refl
option_cases (some a) = inr (a, refl)

ran_out-if :
    {A : Type 0} (b : Bool) (x y : Result A)
    → ran_out x ≡ false
    → ran_out y ≡ false
    → ran_out (if b then x else y) ≡ false
ran_out-if true x y h k = h
ran_out-if false x y h k = k

window_loop-returns :
    (heap : ℕ → PoolBlock) (find : List ℕ → Option PoolBlock) (lib : Uint128) (size p h : ℕ)
    (m : Difficulty) (fuel : ℕ) (cur : PoolBlock) (depth : ℕ) (w : Difficulty)
    (calls : List (PoolBlock × Difficulty))
    → 0 < fuel
    → size < depth + fuel
    → ran_out (window_loop heap find lib size p h m fuel cur depth w calls) ≡ false
unfolding window_loop ran_out
window_loop-returns heap find lib size p h m zero cur depth w calls pos enough =
    absurd (omega arith)
window_loop-returns heap find lib size p h m (suc fuel) cur depth w calls pos enough =
    elim (option_cases (
      iterator_uncles heap find (count_uncle heap find lib size p h m) cur
        (record { cur_weight = cur.side.difficulty; pplns_weight = w; calls = calls }))) [
          | inl e ↦ ground arith
          | inr (s, e) ↦ elim (option_cases (iterator_get_parent heap find cur)) [
            | inl missing ↦ ground arith
            | inr (q, found) ↦
                let rest =
                  window_loop-returns heap find lib size p h m fuel q (depth + 1)
                    (add s.pplns_weight s.cur_weight) (s.calls ++ ((cur, s.cur_weight) ∷ [])) in
                ground (arith, rest)
          ]
        ]

-- BlocksInPPLNSWindow ends whatever the blocks and the functions that look them up: as many rounds as
-- the window is long, and one, suffice.
pub blocks_in_pplns_window-returns :
    (heap : ℕ → PoolBlock) (find : List ℕ → Option PoolBlock) (lib : Uint128) (size p : ℕ)
    (difficulty_by_height : ℕ → Difficulty) (tip : PoolBlock)
    → ran_out (blocks_in_pplns_window heap find lib size p difficulty_by_height tip) ≡ false
unfolding blocks_in_pplns_window
blocks_in_pplns_window-returns heap find lib size p d tip =
    ran_out-if has_parent _ _
      (ran_out-if (same mainchain_difficulty zero_difficulty) (err missing_difficulty) _ refused
        (returns max_weight))
      (returns max_weight)
  where
    refused : ran_out {A = ℕ × List (PoolBlock × Difficulty)} (err missing_difficulty) ≡ false
    refused = unfold ran_out in refl

    has_parent : Bool
    has_parent = not (bytes_eq tip.side.parent zero_hash)

    mainchain_difficulty : Difficulty
    mainchain_difficulty =
        if has_parent then d (seed_height tip.main.coinbase.gen_height) else zero_difficulty

    max_weight : Difficulty
    max_weight =
        if ltb 1 tip.cached_share_version then mul64 mainchain_difficulty 2 else max_difficulty

    returns :
        (m : Difficulty)
        → ran_out
            (window_loop heap find lib size p tip.side.height m (suc size) tip 0 zero_difficulty [])
          ≡ false
    returns m =
        window_loop-returns heap find lib size p tip.side.height m (suc size) tip 0 zero_difficulty
          [] (omega arith) (omega arith)
