-- ===== src/SideChain/Possible/Offered.antt =====
-- GetPossibleUncles ends, and what it offers.
use mathlib.Core.List.{Memᴰ}
use p2pool_observer.Prelude.{
  ℕ, zero, suc, ◌+◌, ◌-◌, ◌%◌, ◌^◌, ◌<◌, ◌≡◌, refl, ap, ◌∙◌, arith, inl, inr, Bool, true, false,
  Bool-cases, Option-cases, Option, none, some, List, [], ◌∷◌, ◌++◌, All, All-append, All-map, ltb,
  min,
}
use p2pool_observer.Codec.{ok}
use p2pool_observer.Utils.NthElement.{then_result}
use p2pool_observer.SideChain.PoolBlock.{contains_hash}
use p2pool_observer.SideChain.Consensus.{uncle_block_depth}
use p2pool_observer.SideChain.Uncles.{walk_back, same_chain, get_parent}
use p2pool_observer.SideChain.State.{
  ChainState, Rules, get_by_height, get_by_template_id, parent_of,
}
use p2pool_observer.Types.Hash.{compare_hash}
use p2pool_observer.SideChain.Verdict.{is_lt}
use p2pool_observer.SideChain.State.Writes.{if_rule}
use p2pool_observer.SideChain.State.Health.{IsGood}
use p2pool_observer.SideChain.Possible.{
  mined_from, on_same_chain, is_unavailable, possible_of, possible_below, insert_hash, sort_hashes,
  get_possible_uncles,
}

-- The parent that getParent finds is below its child.
unfoldable pub Descends : ChainState → Type 0
Descends s =
    (a p : ℕ) → parent_of s (s.heap a) ≡ some p → (s.heap p).side.height < (s.heap a).side.height

walk_back-ends :
    (s : ChainState)
    → Descends s
    → (fuel height p : ℕ) → (s.heap p).side.height < fuel
    → (r : Option ℕ) × (walk_back s.heap (get_by_template_id s) fuel height p ≡ some r)
unfolding walk_back Descends get_parent parent_of
walk_back-ends s falls zero height p low = absurd (omega (arith, low))
walk_back-ends s falls (suc fuel) height p low =
    elim (Bool-cases (ltb height (s.heap p).side.height)) [
      | inr reached ↦ (some p, rw (reached) refl)
      | inl above ↦ elim (Option-cases (parent_of s (s.heap p))) [
        | inl missing ↦ (none, rw (above, missing) refl)
        | inr (q, found) ↦
            let (r, end) =
              walk_back-ends s falls fuel height q
                (let fall = falls p q found in omega (arith, low, fall)) in
            (r, rw (above, found) end)
      ]
    ]

on_same_chain-ends :
    (s : ChainState)
    → Descends s
    → (tip for_height u : ℕ) → (near : Bool) × (on_same_chain s tip for_height u ≡ ok near)
unfolding on_same_chain
on_same_chain-ends s falls tip for_height u =
    let height = (s.heap u).side.height in
    let (r, end) = walk_back-ends s falls (suc (s.heap tip).side.height) height tip (omega arith) in
    elim (Option-cases r) [
      | inl none_left ↦ (false, rw (on_same_chain, end, none_left) refl)
      | inr (tmp, reached) ↦ elim (Bool-cases (ltb (s.heap tmp).side.height height)) [
        | inl below ↦ (false, rw (on_same_chain, end, reached, below) refl)
        | inr level ↦ (
          same_chain s.heap (get_by_template_id s) uncle_block_depth for_height (some tmp) (some u),
          rw (on_same_chain, end, reached, level) refl,
        )
      ]
    ]

-- What holds of an id that is offered: it is that of a block of the list, which is verified and valid,
-- not among the mined ones, and on the tip's chain.
pub record Offered (rules : Rules) (s : ChainState) (tip for_height : ℕ) (mined : List (List ℕ))
    (us : List ℕ) (id : List ℕ) : Type 0 where
  pub block : ℕ
  pub is_listed : Memᴰ block us
  pub is_good : IsGood (s.heap block)
  pub is_near : on_same_chain s tip for_height block ≡ ok true
  pub has_id : rules.template_id (s.heap block) ≡ id
  pub is_new : contains_hash mined id ≡ false

module _ (rules : Rules) (s : ChainState) (falls : Descends s) (tip for_height : ℕ)
    (mined : List (List ℕ)) where
  available-Offered :
      (u : ℕ) (us : List ℕ)
      → is_unavailable rules s tip for_height mined u ≡ false
      → on_same_chain s tip for_height u ≡ ok true
      → Offered rules s tip for_height mined (u ∷ us) (rules.template_id (s.heap u))
  unfolding is_unavailable
  available-Offered u us h near = record {
    block = u;
    is_listed = Memᴰ.head refl;
    is_good = record { is_verified = ground arith; is_valid = ground arith };
    is_near = near;
    has_id = refl;
    is_new = ground arith;
  }

  later-Offered :
      (u : ℕ) (us : List ℕ) (id : List ℕ)
      → Offered rules s tip for_height mined us id
      → Offered rules s tip for_height mined (u ∷ us) id
  later-Offered u us id o = record {
    block = o.block;
    is_listed = Memᴰ.tail o.is_listed;
    is_good = o.is_good;
    is_near = o.is_near;
    has_id = o.has_id;
    is_new = o.is_new;
  }

  possible_of-Offered :
      (us : List ℕ)
      → (ids : List (List ℕ)) × (possible_of rules s tip for_height mined us ≡ ok ids)
        × All (Offered rules s tip for_height mined us) ids
  unfolding possible_of then_result
  possible_of-Offered [] = ([], refl, tt)
  possible_of-Offered (u ∷ us) =
      let (ids, end, offered) = possible_of-Offered us in
      let later = All-map (later-Offered u us) ids offered in
      elim (Bool-cases (is_unavailable rules s tip for_height mined u)) [
        | inl unavailable ↦ (ids, rw (possible_of, unavailable) end, later)
        | inr available ↦
            let (near, answer) = on_same_chain-ends s falls tip for_height u in
            elim (Bool-cases near) [
              | inl close ↦ (
                rules.template_id (s.heap u) ∷ ids,
                rw (possible_of, available, answer, end, close, then_result) refl,
                (available-Offered u us available (answer ∙ ap ok close), later),
              )
              | inr far ↦
                  (ids, rw (possible_of, available, answer, end, far, then_result) refl, later)
            ]
      ]

  -- A block of one of the `n` heights from `h` down.
  Below : ℕ → ℕ → List ℕ → Type 0
  Below n h id =
      (i : ℕ) × (i < n) × Offered rules s tip for_height mined (get_by_height s (h - i)) id

  possible_below-Offered :
      (n h : ℕ)
      → (ids : List (List ℕ)) × (possible_below rules s tip for_height mined n h ≡ ok ids)
        × All (Below n h) ids
  unfolding possible_below then_result Below
  possible_below-Offered zero h = ([], refl, tt)
  possible_below-Offered (suc n) h =
      let (ids, end, here) = possible_of-Offered (get_by_height s h) in
      let (rest, end', there) = possible_below-Offered n (h - 1) in
      (
        ids ++ rest,
        rw (end, end') refl,
        All-append (Below (suc n) h) ids rest
            (All-map (λ id o. (0, omega arith, let e : h - 0 ≡ h = omega arith in rw e o)) ids here)
            (All-map
              (λ id (o : Below n (h - 1) id). (
                1 + o.0,
                let low = o.1 in omega (arith, low),
                let e : h - 1 - o.0 ≡ h - (1 + o.0) = omega arith in rw e at o.2,
              ))
              rest there),
      )

few : (i m : ℕ) → i < min uncle_block_depth m → i < 3
few i m h = ground arith

insert_hash-All {κ} :
    (P : List ℕ → Type κ) (h : List ℕ) (ks : List (List ℕ))
    → P h
    → All P ks
    → All P (insert_hash h ks)
unfolding insert_hash
insert_hash-All P h [] p q = (p, tt)
insert_hash-All P h (k ∷ ks) p (q, qs) =
    if_rule (All P) (is_lt (compare_hash k h)) (q, insert_hash-All P h ks p qs) (p, (q, qs))

sort_hashes-All {κ} : (P : List ℕ → Type κ) (ks : List (List ℕ)) → All P ks → All P (sort_hashes ks)
unfolding sort_hashes
sort_hashes-All P [] q = tt
sort_hashes-All P (k ∷ ks) (q, qs) =
    insert_hash-All P k (sort_hashes ks) q (sort_hashes-All P ks qs)

-- Where every parent that is found is below its child, GetPossibleUncles ends, and each id that it offers
-- is that of a block of the tip's height or up to two below it, verified and valid, on the tip's chain,
-- and neither mined from the tip down nor an uncle of a block that is.
pub get_possible_uncles-Offered :
    (rules : Rules) (s : ChainState) (tip for_height : ℕ)
    → Descends s
    → (ids : List (List ℕ)) × (get_possible_uncles rules s tip for_height ≡ ok ids)
      × All
          (λ id.
            (i : ℕ) × (i < 3)
            × Offered rules s tip for_height
                (mined_from rules s
                  (min uncle_block_depth (((s.heap tip).side.height + 1) % 2 ^ 64))
                  (some tip))
                (get_by_height s ((s.heap tip).side.height - i))
                id)
          ids
unfolding get_possible_uncles then_result Below
get_possible_uncles-Offered rules s tip for_height falls =
    let height = (s.heap tip).side.height in
    let n = min uncle_block_depth ((height + 1) % 2 ^ 64) in
    let mined = mined_from rules s n (some tip) in
    let (ids, end, below) = possible_below-Offered rules s falls tip for_height mined n height in
    (
      sort_hashes ids,
      rw (end, then_result) refl,
      sort_hashes-All _ ids (
          All-map
            (λ id (o : Below rules s falls tip for_height mined n height id).
              (o.0, few o.0 ((height + 1) % 2 ^ 64) o.1, o.2))
            ids below),
    )
