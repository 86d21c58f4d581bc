-- ===== src/SideChain/Uncles/Sound.antt =====
-- What the uncles are that the checks accept.
use p2pool_observer.Prelude.{
  ℕ, suc, ◌+◌, ◌%◌, ◌^◌, ◌<◌, ◌≤◌, ◌≡◌, ◌≢◌, refl, sym, ap, subst, ◌∙◌, arith, Bool, true, false,
  not, ◌||◌, inl, inr, Option, none, some, List, [], ◌∷◌, ltb, leb, if◌then◌else◌, All,
  Option-cases,
}
use p2pool_observer.Types.Uint128.{Difficulty, IsU128, value, value_lt}
use p2pool_observer.Types.Difficulty.{add}
use p2pool_observer.Types.Difficulty.Arithmetic.{value-add}
use p2pool_observer.Types.Hash.{bytes_eq, zero_hash}
use p2pool_observer.Types.Hash.Order.{bytes_eq_refl}
use p2pool_observer.SideChain.PoolBlock.{PoolBlock, contains_hash}
use p2pool_observer.SideChain.Consensus.{uncle_block_depth}
use p2pool_observer.SideChain.Verdict.{
  Check, goes_on, ends, looping, invalid, different_chain, uncle_height,
}
use p2pool_observer.SideChain.Uncles.{
  walk_back, same_chain, check_ancestor, check_uncle, check_uncles,
}
use p2pool_observer.SideChain.Uncles.Ancestors.{
  passes, not-false, ends_ne, Ancestor, itself, parent, Related, walk_back-Ancestor,
  same_chain-Related,
}

module _ (heap : ℕ → PoolBlock) (find : List ℕ → Option ℕ) where
  -- An uncle of a share `b` on the parent `p`: a block that is known, verified and valid, one to three
  -- heights below the share, not mined before, and of the same chain as the parent.
  pub record IsUncle (b : PoolBlock) (p : ℕ) (mined : List (List ℕ)) (id : List ℕ) : Type 0 where
    pub address : ℕ
    pub found : find id ≡ some address
    pub not_empty : id ≢ zero_hash
    pub not_mined : contains_hash mined id ≡ false
    pub is_verified : (heap address).verified ≡ true
    pub is_valid : (heap address).invalid ≡ false
    pub below_share : (heap address).side.height < b.side.height
    pub near_share : b.side.height ≤ (heap address).side.height + 3
    pub related : Related heap find p address

  check_ancestor-Related :
      (b : PoolBlock) (p u : ℕ) (d d' : Difficulty)
      → check_ancestor heap find b p u d ≡ goes_on d'
      → Related heap find p u × (d' ≡ add d (heap u).side.difficulty)
  unfolding check_ancestor
  check_ancestor-Related b p u d d' e = elim (Option-cases walk) [
    | inl out ↦ absurd (let e' : ends looping ≡ goes_on d' = rw (out, check_ancestor) at e in cc)
    | inr (w, some_w) ↦ elim (Option-cases w) [
      | inl missing ↦ absurd (
          let e' : ends (invalid different_chain) ≡ goes_on d' =
            rw (some_w ∙ ap some missing, check_ancestor) at e in
          cc)
      | inr (tmp, some_tmp) ↦
          let stands : walk ≡ some (some tmp) = some_w ∙ ap some some_tmp in
          let (above, e1) =
            passes (ltb (heap tmp).side.height (heap u).side.height) (ends_ne _ d')
              (rw (stands, check_ancestor) at e) in
          let (related, sum) = last (same_chain heap find 3 b.side.height (some tmp) (some u)) e1 in
          let r = same_chain-Related heap find 3 b.side.height tmp u related in
          (before (walk_back-Ancestor heap find _ _ p tmp stands).0 r, sum)
    ]
  ]
    where
      walk : Option (Option ℕ)
      walk = walk_back heap find (suc (heap p).side.height) (heap u).side.height p

      last :
          (t : Bool)
          → (if t then goes_on (add d (heap u).side.difficulty) else ends (invalid different_chain))
            ≡ goes_on d'
          → (t ≡ true) × (d' ≡ add d (heap u).side.difficulty)
      last true h = (refl, cc)
      last false h = absurd (cc)

      trans : {x y z : ℕ} → Ancestor heap find x y → Ancestor heap find y z → Ancestor heap find x z
      trans itself l = l
      trans (parent f k) l = parent f (trans k l)

      before : {q : ℕ} → Ancestor heap find p q → Related heap find q u → Related heap find p u
      before a r = record {
        left = r.left;
        right = r.right;
        left_ancestor = trans a r.left_ancestor;
        right_ancestor = r.right_ancestor;
        same_parent = r.same_parent;
      }

  check_uncle-IsUncle :
      (b : PoolBlock) (p : ℕ) (mined : List (List ℕ)) (d d' : Difficulty) (id : List ℕ)
      → check_uncle heap find b p mined d id ≡ goes_on d'
      → (uncle : IsUncle b p mined id) × (d' ≡ add d (heap uncle.address).side.difficulty)
  unfolding check_uncle
  check_uncle-IsUncle b p mined d d' id e =
      let (some_hash, e1) = passes (bytes_eq id zero_hash) (ends_ne _ d') e in
      let (fresh, e2) = passes (contains_hash mined id) (ends_ne _ d') e1 in
      elim (Option-cases (find id)) [
        | inl unknown ↦ absurd (let e3 = rw (unknown, check_uncle) at e2 in cc)
        | inr (u, known) ↦
            let (checked, e4) =
              passes (not (heap u).verified) (ends_ne _ d') (rw (known, check_uncle) at e2) in
            let (valid, e5) = passes (heap u).invalid (ends_ne _ d') e4 in
            let (placed, e6) =
              passes
                (leb b.side.height (heap u).side.height
                  || ltb (((heap u).side.height + uncle_block_depth) % 2 ^ 64) b.side.height)
                (ends_ne (invalid uncle_height) d') e5 in
            let (related, sum) = check_ancestor-Related b p u d d' e6 in
            (
              record {
                address = u;
                found = known;
                not_empty = λ z. absurd (let y = bytes_eq_refl zero_hash in cc);
                not_mined = fresh;
                is_verified = not-false _ checked;
                is_valid = valid;
                below_share = ground (arith, placed);
                near_share = ground (arith, placed);
                related = related;
              },
              sum,
            )
      ]

  -- The difficulties of the blocks that the hashes name.
  unfoldable pub uncle_sum : List (List ℕ) → ℕ
  uncle_sum [] = 0
  uncle_sum (id ∷ ids) =
      elim (find id) [ none ↦ 0 | some u ↦ value (heap u).side.difficulty ] + uncle_sum ids

  pub check_uncles-IsUncle :
      (b : PoolBlock) (p : ℕ) (mined : List (List ℕ)) (d d' : Difficulty) (ids : List (List ℕ))
      → IsU128 d
      → check_uncles heap find b p mined d ids ≡ goes_on d'
      → All (IsUncle b p mined) ids × (value d' ≡ (value d + uncle_sum ids) % 2 ^ 128) × IsU128 d'
  unfolding check_uncles uncle_sum
  check_uncles-IsUncle b p mined d d' [] v e =
      let same : d ≡ d' = cc in
      (tt, omega (arith, ap value same, value_lt d v), subst IsU128 same v)
  check_uncles-IsUncle b p mined d d' (id ∷ ids) v e =
      split (check_uncle heap find b p mined d id) refl e
        (λ x fits rest. check_uncles-IsUncle b p mined x d' ids fits rest)
    where
      split :
          (k : Check)
          → check_uncle heap find b p mined d id ≡ k
          → elim k [
            | goes_on x ↦ check_uncles heap find b p mined x ids
            | ends failure ↦ ends failure
          ]
            ≡ goes_on d'
          → ((x : Difficulty)
              → IsU128 x
              → check_uncles heap find b p mined x ids ≡ goes_on d'
              → All (IsUncle b p mined) ids
                × (value d' ≡ (value x + uncle_sum ids) % 2 ^ 128)
                × IsU128 d')
          → All (IsUncle b p mined) (id ∷ ids)
            × (value d' ≡ (value d + uncle_sum (id ∷ ids)) % 2 ^ 128)
            × IsU128 d'
      split (ends failure) at_id rest ih = absurd (cc)
      split (goes_on x) at_id rest ih =
          let (uncle, sum) = check_uncle-IsUncle b p mined d x id at_id in
          let (x_sum, x_fits) = value-add d (heap uncle.address).side.difficulty in
          let (uncles, total, fits) = ih x (subst IsU128 (sym sum) x_fits) rest in
          (
            (uncle, uncles),
            rw (uncle.found, uncle_sum) (omega (arith, total, ap value sum, x_sum)),
            fits,
          )
