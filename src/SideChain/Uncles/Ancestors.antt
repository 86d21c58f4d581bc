-- ===== src/SideChain/Uncles/Ancestors.antt =====
-- The walks back through the chain find ancestors.
use Prim.Native.Nat.{Ordering}
use p2pool_observer.Prelude.{
  ℕ, zero, suc, ◌+◌, ◌%◌, ◌^◌, ◌≤◌, ◌≡◌, ◌≢◌, refl, sym, subst, Bool, true, false, not, ◌&&◌, inl,
  inr, Option, none, some, List, [], ◌∷◌, ltb, ltb→le, leb, if◌then◌else◌, Bool-cases, Option-cases,
}
use p2pool_observer.Types.Uint128.{Difficulty}
use p2pool_observer.Types.Hash.{bytes_eq, compare_hash}
use p2pool_observer.Types.Hash.Order.{bytes_eq→eq}
use p2pool_observer.SideChain.PoolBlock.{PoolBlock}
use p2pool_observer.SideChain.Consensus.{uncle_block_depth}
use p2pool_observer.SideChain.Verdict.{
  goes_on, ends, Failure, verified, fails, is_lt, ascending_from, ascending,
}
use p2pool_observer.SideChain.Uncles.{get_parent, walk_back, same_chain}

-- A test that ends otherwise was passed.
pub passes {ℓ} :
    {A : Type ℓ} {x rest r : A} (t : Bool)
    → x ≢ r
    → (if t then x else rest) ≡ r
    → (t ≡ false) × (rest ≡ r)
passes true ne h = absurd (ne h)
passes false ne h = (refl, h)

pub not-false : (t : Bool) → not t ≡ false → t ≡ true
not-false true h = refl
not-false false h = sym h

pub fails_ne : (f : Failure) → fails f ≢ verified
fails_ne f h = cc

pub ends_ne : (v : Failure) (d : Difficulty) → ends v ≢ goes_on d
ends_ne v d h = cc

-- Every hash is below the next one.
pub data Ascending : List (List ℕ) → Type 0 where
  nothing : Ascending []
  single : {h : List ℕ} → Ascending (h ∷ [])
  below :
      {h k : List ℕ} {hs : List (List ℕ)}
      → compare_hash h k ≡ Ordering.lt
      → Ascending (k ∷ hs)
      → Ascending (h ∷ k ∷ hs)

pub is_lt-lt : (o : Ordering) → is_lt o ≡ true → o ≡ Ordering.lt
unfolding is_lt
is_lt-lt Ordering.lt h = refl
is_lt-lt Ordering.eq h = absurd (cc)
is_lt-lt Ordering.gt h = absurd (cc)

pub and-true : (a b : Bool) → (a && b) ≡ true → (a ≡ true) × (b ≡ true)
and-true true b h = (refl, h)
and-true false b h = absurd (cc)

ascending_from-Ascending :
    (h : List ℕ) (hs : List (List ℕ)) → ascending_from h hs ≡ true → Ascending (h ∷ hs)
unfolding ascending_from
ascending_from-Ascending h [] e = single
ascending_from-Ascending h (k ∷ ks) e =
    let (first, rest) = and-true (is_lt (compare_hash h k)) (ascending_from k ks) e in
    below (is_lt-lt (compare_hash h k) first) (ascending_from-Ascending k ks rest)

pub ascending-Ascending : (hs : List (List ℕ)) → ascending hs ≡ true → Ascending hs
unfolding ascending
ascending-Ascending [] e = nothing
ascending-Ascending (h ∷ hs) e = ascending_from-Ascending h hs e

module _ (heap : ℕ → PoolBlock) (find : List ℕ → Option ℕ) where
  -- `q` is `p`, or a parent of a parent of it.
  pub data Ancestor : ℕ → ℕ → Type 0 where
    itself : {p : ℕ} → Ancestor p p
    parent : {p q r : ℕ} → get_parent heap find (heap p) ≡ some q → Ancestor q r → Ancestor p r

  -- Two blocks on one chain: on the way back from each there is a block, and these two have the same
  -- parent.
  pub record Related (p u : ℕ) : Type 0 where
    pub left : ℕ
    pub right : ℕ
    pub left_ancestor : Ancestor p left
    pub right_ancestor : Ancestor u right
    pub same_parent : (heap left).side.parent ≡ (heap right).side.parent

  pub walk_back-Ancestor :
      (fuel height p tmp : ℕ)
      → walk_back heap find fuel height p ≡ some (some tmp)
      → Ancestor p tmp × ((heap tmp).side.height ≤ height)
  unfolding walk_back
  walk_back-Ancestor zero height p tmp e = absurd (cc)
  walk_back-Ancestor (suc fuel) height p tmp e =
      elim (Bool-cases (ltb height (heap p).side.height)) [
        | inl above ↦ elim (Option-cases (get_parent heap find (heap p))) [
          | inl missing ↦ absurd (let e' = rw (above, walk_back, missing) at e in cc)
          | inr (q, found) ↦
              let (a, l) =
                walk_back-Ancestor fuel height q tmp (rw (above, walk_back, found) at e) in
              (parent found a, l)
        ]
        | inr reached ↦
            let same : some (some p) ≡ some (some tmp) = rw (reached, walk_back) at e in
            let eq : p ≡ tmp = cc in
            (
              subst (Ancestor p) eq itself,
              subst (λ q. (heap q).side.height ≤ height) eq (ltb→le _ _ reached),
            )
      ]

  further :
      {p q u v : ℕ}
      → get_parent heap find (heap p) ≡ some q
      → get_parent heap find (heap u) ≡ some v
      → Related q v
      → Related p u
  further e f r = record {
    left = r.left;
    right = r.right;
    left_ancestor = parent e r.left_ancestor;
    right_ancestor = parent f r.right_ancestor;
    same_parent = r.same_parent;
  }

  -- It is only true of blocks, which are close to the height.
  same_chain-some :
      (n height : ℕ) (o o' : Option ℕ)
      → same_chain heap find n height o o' ≡ true
      → (p u : ℕ) × (o ≡ some p) × (o' ≡ some u)
  unfolding same_chain
  same_chain-some zero height o o' e = absurd (cc)
  same_chain-some (suc n) height none o' e = absurd (cc)
  same_chain-some (suc n) height (some p) none e = absurd (cc)
  same_chain-some (suc n) height (some p) (some u) e = (p, u, refl, refl)

  pub same_chain-Related :
      (n height p u : ℕ) → same_chain heap find n height (some p) (some u) ≡ true → Related p u
  unfolding same_chain
  same_chain-Related zero height p u e = absurd (cc)
  same_chain-Related (suc n) height p u e =
      elim (Bool-cases (bytes_eq (heap p).side.parent (heap u).side.parent)) [
        | inl same ↦ record {
          left = p;
          right = u;
          left_ancestor = itself;
          right_ancestor = itself;
          same_parent = bytes_eq→eq _ _ same;
        }
        | inr differ ↦
            let back : same_chain heap find n height (get_parent heap find (heap p))
                  (get_parent heap find (heap u))
                ≡ true =
              close (leb height (((heap p).side.height + uncle_block_depth) % 2 ^ 64))
                (rw (differ, same_chain) at e) in
            let (q, v, found, found') = same_chain-some n height _ _ back in
            further found found' (same_chain-Related n height q v (rw (found, found') at back))
      ]
    where
      close : (t : Bool) {x : Bool} → (if t then x else false) ≡ true → x ≡ true
      close true h = h
      close false h = absurd (cc)
