-- ===== src/SideChain/Longer/Ends.antt =====
-- The walks of IsLongerChain end.
use p2pool_observer.Prelude.{
  ℕ, zero, suc, ◌+◌, ◌≤◌, ◌<◌, ◌≡◌, refl, arith, ltb→lt, ◌⊎◌, inl, inr, Bool, true, false, not,
  ◌||◌, Option, none, some, List, ltb, Bool-cases, Option-cases,
}
use p2pool_observer.Codec.{ok}
use p2pool_observer.Types.Difficulty.{cmp}
use p2pool_observer.Types.Hash.{bytes_eq}
use p2pool_observer.SideChain.PoolBlock.{PoolBlock}
use p2pool_observer.SideChain.Consensus.{Consensus}
use p2pool_observer.SideChain.Verdict.{is_lt}
use p2pool_observer.SideChain.Window.{iterator_get_parent}
use p2pool_observer.SideChain.Longer.{
  descend, common_parent, on_one_chain, overtakes, tally_loop, no_tally, is_longer_chain, block_of,
}

module _ (heap : ℕ → PoolBlock) (find : List ℕ → Option PoolBlock)
    (main_height : List ℕ → Option ℕ) where
  -- The parent of a block of the heap is a block of the heap below it.
  abbrev pub ParentBelow : Type 0
  ParentBelow =
      (a : ℕ) (q : PoolBlock)
      → iterator_get_parent heap find (heap a) ≡ some q
      → (x : ℕ) × (q ≡ heap x) × ((heap x).side.height < (heap a).side.height)

  descend-nil :
      (fuel height : ℕ) → 0 < fuel → descend heap find main_height fuel height none ≡ some none
  unfolding descend
  descend-nil zero height h = absurd (omega (arith, h))
  descend-nil (suc fuel) height h = refl

  common_parent-nil :
      (fuel : ℕ) (q : Option PoolBlock)
      → 0 < fuel
      → common_parent heap find main_height fuel none q ≡ some false
  unfolding common_parent
  common_parent-nil zero q h = absurd (omega (arith, h))
  common_parent-nil (suc fuel) q h = refl

  common_parent-end :
      (fuel : ℕ) (p : PoolBlock)
      → 0 < fuel
      → common_parent heap find main_height fuel (some p) none ≡ some false
  unfolding common_parent
  common_parent-end zero p h = absurd (omega (arith, h))
  common_parent-end (suc fuel) p h = refl

  -- No block, or one of the heap of at most a height.
  abbrev UpTo : ℕ → Option PoolBlock → Type 0
  UpTo height r = (r ≡ none) ⊎ ((x : ℕ) × (r ≡ some (heap x)) × ((heap x).side.height ≤ height))

  module _ (below : ParentBelow) where
    -- A walk ends at no block, or at one of the heap that is not above its start.
    descend-ends :
        (fuel height a : ℕ)
        → (heap a).side.height < fuel
        → (r : Option PoolBlock) × (descend heap find main_height fuel height (some (heap a))
            ≡ some r)
          × UpTo (heap a).side.height r
    unfolding descend
    descend-ends zero height a low = absurd (omega (arith, low))
    descend-ends (suc fuel) height a low = elim (Bool-cases (ltb height (heap a).side.height)) [
      | inr reached ↦ (some (heap a), rw (descend, reached) refl, inr (a, refl, omega arith))
      | inl above ↦
          let positive = ltb→lt height (heap a).side.height above in
          elim (Option-cases (iterator_get_parent heap find (heap a))) [
            | inl missing ↦ (
              none,
              rw (descend, above, missing) (descend-nil fuel height (omega (arith, low, positive))),
              inl refl,
            )
            | inr (q, found) ↦
                let (x, at, lower) = below a q found in
                let (r, end, last) = descend-ends fuel height x (omega (arith, low, lower)) in
                (
                  r,
                  rw (descend, above, found, at) end,
                  elim last [
                    | inl nil ↦ inl nil
                    | inr (y, here, small) ↦ inr (y, here, omega (arith, small, lower))
                  ],
                )
          ]
    ]

    common_parent-ends :
        (fuel a y : ℕ)
        → (heap a).side.height + 1 < fuel
        → (t : Bool) × (common_parent heap find main_height fuel (some (heap a)) (some (heap y))
            ≡ some t)
    unfolding common_parent
    common_parent-ends zero a y low = absurd (omega (arith, low))
    common_parent-ends (suc fuel) a y low =
        elim (Bool-cases (bytes_eq (heap a).side.parent (heap y).side.parent)) [
          | inl same ↦ (true, rw (common_parent, same) refl)
          | inr other ↦ elim (Option-cases (iterator_get_parent heap find (heap a))) [
            | inl missing ↦ (
              false,
              rw (common_parent, other, missing) (common_parent-nil fuel _ (omega (arith, low))),
            )
            | inr (p, found) ↦
                let (x, at, lower) = below a p found in
                elim (Option-cases (iterator_get_parent heap find (heap y))) [
                  | inl missing ↦ (
                    false,
                    rw (common_parent, other, found, missing)
                        (common_parent-end fuel p (omega (arith, low))),
                  )
                  | inr (q, found') ↦
                      let (z, at', lower') = below y q found' in
                      let (t, end) = common_parent-ends fuel x z (omega (arith, low, lower)) in
                      (t, rw (common_parent, other, found, found', at, at') end)
                ]
          ]
        ]

    on_one_chain-ends :
        (a y : ℕ) → (t : Bool) × (on_one_chain heap find main_height (heap a) (heap y) ≡ some t)
    unfolding on_one_chain
    on_one_chain-ends a y =
        let (r, end, last) =
          descend-ends (suc (heap a).side.height) (heap y).side.height a (omega arith) in
        elim last [
          | inl nil ↦ (false, rw (on_one_chain, end, nil) refl)
          | inr (p, at, low) ↦
              let (q, end', last') =
                descend-ends (suc (heap y).side.height) (heap p).side.height y (omega arith) in
              elim last' [
                | inl nil ↦ (
                  false,
                  rw (on_one_chain, end, at, end', nil)
                      (common_parent-end (suc (suc (heap p).side.height)) (heap p) (omega arith)),
                )
                | inr (z, at', low') ↦
                    let (t, shared) =
                      common_parent-ends (suc (suc (heap p).side.height)) p z (omega arith) in
                    (t, rw (on_one_chain, end, at, end', at') shared)
              ]
        ]

    -- Where the parent of every block of the heap is a block of the heap below it, IsLongerChain ends.
    pub is_longer_chain-ends :
        (c : Consensus) (block : Option ℕ) (candidate : ℕ)
        → (r : Bool × Bool) × (is_longer_chain heap find main_height c
              (block_of heap block)
              (some (heap candidate))
            ≡ ok r)
    unfolding is_longer_chain block_of
    is_longer_chain-ends c none y = elim (Bool-cases (not (heap y).verified || (heap y).invalid)) [
      | inl refused ↦ ((false, false), rw (is_longer_chain, refused) refl)
      | inr fine ↦ ((true, true), rw (is_longer_chain, fine) refl)
    ]
    is_longer_chain-ends c (some a) y =
        elim (Bool-cases (not (heap y).verified || (heap y).invalid)) [
          | inl refused ↦ ((false, false), rw (is_longer_chain, refused) refl)
          | inr fine ↦
              let (t, end) = on_one_chain-ends a y in
              elim (Bool-cases t) [
                | inl shared ↦ (
                  (
                    is_lt (
                        cmp (heap a).side.cumulative_difficulty
                          (heap y).side.cumulative_difficulty),
                    false,
                  ),
                  rw (is_longer_chain, fine, end, shared) refl,
                )
                | inr apart ↦ (
                  (
                    overtakes heap find main_height c (
                        tally_loop heap find main_height c.chain_window_size (some (heap a))
                          (some (heap y)) (no_tally heap find main_height)),
                    true,
                  ),
                  rw (is_longer_chain, fine, end, apart) refl,
                )
              ]
        ]
