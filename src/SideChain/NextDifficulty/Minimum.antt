-- ===== src/SideChain/NextDifficulty/Minimum.antt =====
-- The next difficulty is never below the minimum.
use Prim.Native.Nat.{compare}
use p2pool_observer.Prelude.{
  ℕ, ◌+◌, ◌-◌, ◌*◌, ◌/◌, ◌^◌, ◌<◌, ◌≤◌, ◌≡◌, refl, sym, ap, subst, ◌∙◌, arith, Bool, true, false,
  ◌&&◌, ◌⊎◌, inl, inr, none, some, List, [], ◌∷◌, ltb, leb, ◌==◌, if◌then◌else◌, length,
  get_elem?_total, All, Bool-cases, Option-cases,
}
use p2pool_observer.Codec.{Result, ok, err, difficulty_wraps}
use p2pool_observer.Types.Uint128.{
  Difficulty, Uint128, IsU128, value, of_value, of_value-IsU128, value_lt,
}
use p2pool_observer.Types.Difficulty.{zero_difficulty, max_difficulty, cmp, from64}
use p2pool_observer.Utils.NthElement.{then_result}
use p2pool_observer.Utils.NthElement.Selects.{nth_element-perm}
use p2pool_observer.SideChain.Consensus.{Consensus}
use p2pool_observer.SideChain.Verdict.{is_lt}
use p2pool_observer.SideChain.Window.{above}
use p2pool_observer.SideChain.NextDifficulty.{
  DifficultyData, extremes, element, difficulty_over, delta_of, next_difficulty,
}

extremes-IsU128 :
    (low high : ℕ) (least greatest : Difficulty) (ds : List DifficultyData)
    → IsU128 least
    → IsU128 greatest
    → All (λ d. IsU128 d.cumulative_difficulty) ds
    → IsU128 (extremes low high least greatest ds).0
      × IsU128 (extremes low high least greatest ds).1
unfolding extremes
extremes-IsU128 low high least greatest [] hl hg vs = (hl, hg)
extremes-IsU128 low high least greatest (d ∷ ds) hl hg (v, vs) =
    elim (Bool-cases (leb low d.timestamp && leb d.timestamp high)) [
      | inl inside ↦ rw inside (
          extremes-IsU128 low high
            (if above least d.cumulative_difficulty then d.cumulative_difficulty else least)
            (if is_lt (cmp greatest d.cumulative_difficulty)
              then d.cumulative_difficulty
              else greatest)
            ds (chosen (above least d.cumulative_difficulty) v hl)
            (chosen (is_lt (cmp greatest d.cumulative_difficulty)) v hg) vs)
      | inr outside ↦ rw outside (extremes-IsU128 low high least greatest ds hl hg vs)
    ]
  where
    chosen : (t : Bool) {x y : Difficulty} → IsU128 x → IsU128 y → IsU128 (if t then x else y)
    chosen true hx hy = hx
    chosen false hx hy = hy

module _ (lib : Uint128) (c : Consensus) where
  given-IsU128 :
      (t : Bool) (n : ℕ) (d : Difficulty)
      → n < 2 ^ 128
      → (if t then some (of_value n) else none) ≡ some d
      → IsU128 d
  given-IsU128 true n d h e =
      let same : of_value n ≡ d = cc in subst IsU128 same (of_value-IsU128 n h)
  given-IsU128 false n d h e = absurd (cc)

  -- The error, or a difficulty from the minimum on.
  abbrev pub AtLeast : Result Difficulty → Type 0
  AtLeast r =
      (r ≡ err difficulty_wraps)
      ⊎ ((d : Difficulty) × (r ≡ ok d) × (c.minimum_difficulty ≤ value d))

  difficulty_over-AtLeast :
      (delta : ℕ) (bounds : Difficulty × Difficulty)
      → delta < 2 ^ 64
      → c.target_block_time < 2 ^ 64
      → c.minimum_difficulty < 2 ^ 64
      → IsU128 bounds.0
      → IsU128 bounds.1
      → AtLeast (difficulty_over lib c delta bounds)
  unfolding difficulty_over
  difficulty_over-AtLeast delta bounds hd ht hm h0 h1 = elim (Bool-cases (delta == 0)) [
    | inl z ↦ inl (rw z refl)
    | inr nz ↦ elim (Option-cases (lib.sub bounds.1 bounds.0)) [
      | inl wraps ↦ inl (rw (nz, difficulty_over, wraps) refl)
      | inr (d, sub_d) ↦ elim (Option-cases (lib.mul64 d c.target_block_time)) [
        | inl wraps ↦ inl (rw (nz, difficulty_over, sub_d, wraps) refl)
        | inr (p, mul_p) ↦
            let hd' : IsU128 d =
              given-IsU128 (leb (value bounds.0) (value bounds.1)) (value bounds.1 - value bounds.0)
                d (omega (arith, value_lt bounds.1 h1))
                (sym (lib.sub_lem bounds.1 bounds.0 h1 h0) ∙ sub_d) in
            let hp : IsU128 p =
              product_fits (value d * c.target_block_time) p
                (sym (lib.mul64_lem d c.target_block_time hd' ht) ∙ mul_p) in
            let positive : 0 < delta = ground (arith, nz) in
            let quotient = lib.div64_lem p delta hp positive hd in
            let small : value p / delta < 2 ^ 128 =
              shrinks (value p) delta (value_lt p hp) positive in
            let current = lib.div64 p delta in
            let fits : IsU128 current =
              subst IsU128 (sym quotient) (of_value-IsU128 (value p / delta) small) in
            elim (Bool-cases (is_lt (lib.cmp64 current c.minimum_difficulty))) [
              | inl low ↦ inr (
                from64 c.minimum_difficulty,
                (rw (nz, difficulty_over, sub_d, mul_p, low) refl),
                at_minimum c.minimum_difficulty,
              )
              | inr high ↦ inr (
                current,
                (rw (nz, difficulty_over, sub_d, mul_p, high) refl),
                above_minimum _ _
                    (ap is_lt (sym (lib.cmp64_lem current c.minimum_difficulty fits hm)) ∙ high),
              )
            ]
      ]
    ]
  ]
    where
      product_fits :
          (n : ℕ) (p : Difficulty)
          → (if ltb n (2 ^ 128) then some (of_value n) else none) ≡ some p
          → IsU128 p
      product_fits n p e = elim (Bool-cases (ltb n (2 ^ 128))) [
        | inl y ↦ given-IsU128 true n p (ground (arith, y)) (rw y at e)
        | inr y ↦ absurd (let e' = rw y at e in cc)
      ]

      shrinks : (m n : ℕ) → m < 2 ^ 128 → 0 < n → m / n < 2 ^ 128
      shrinks m n h q = grind arith

      at_minimum : (m : ℕ) → m ≤ value (from64 m)
      at_minimum m = unfold value from64 in omega arith

      above_minimum : (m n : ℕ) → is_lt (compare m n) ≡ false → n ≤ m
      above_minimum m n e = unfold is_lt in ground arith

element-ok : (s : List ℕ) (i : ℕ) → i < length s → (v : ℕ) × (element s i ≡ ok v)
unfolding element
element-ok s i h = let (v, e) = get_elem?_total s i h in (v, (rw (e, element) refl))

-- For at least one timestamp, NextDifficulty does not index out of range: it returns the error for a
-- wrap, or a difficulty that is at least the minimum difficulty of the side chain.
pub next_difficulty-AtLeast :
    (lib : Uint128) (c : Consensus) (timestamps : List ℕ) (ds : List DifficultyData)
    → 0 < length timestamps
    → length timestamps < 2 ^ 64
    → c.target_block_time < 2 ^ 64
    → c.minimum_difficulty < 2 ^ 64
    → All (λ d. IsU128 d.cumulative_difficulty) ds
    → AtLeast lib c (next_difficulty lib c timestamps ds)
unfolding next_difficulty then_result
next_difficulty-AtLeast lib c timestamps ds some_times few ht hm vs =
    let cut = (length timestamps + 9) / 10 in
    let low_index = cut - 1 in
    let upper_index = length timestamps - cut in
    let (ts1, e1, m1, l1) = nth_element-perm ltb timestamps low_index (omega arith) in
    let (low, e2) = element-ok ts1 low_index (omega (arith, l1)) in
    let (ts2, e3, m3, l3) = nth_element-perm ltb ts1 upper_index (omega (arith, l1)) in
    let (high, e4) = element-ok ts2 upper_index (omega (arith, l1, l3)) in
    let (h0, h1) =
      extremes-IsU128 low high max_difficulty zero_difficulty ds (omega arith) (omega arith) vs in
    rw (e1, next_difficulty, e2, e3, e4)
      (difficulty_over-AtLeast lib c (delta_of low_index upper_index low high) _
        (delta_fits low_index upper_index low high (omega arith)) ht hm h0 h1)
  where
    delta_fits : (i j low high : ℕ) → j < 2 ^ 64 → delta_of i j low high < 2 ^ 64
    delta_fits i j low high h = unfold delta_of in ground arith
