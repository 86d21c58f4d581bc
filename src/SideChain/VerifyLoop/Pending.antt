-- ===== src/SideChain/VerifyLoop/Pending.antt =====
-- How many blocks have no verdict, and how many are pushed on the stack of verifyLoop.
use mathlib.Core.List.{Memᴰ}
use p2pool_observer.Prelude.{
  ℕ, ◌+◌, ◌*◌, ◌%◌, ◌^◌, ◌≤◌, ◌<◌, ◌≡◌, sym, arith, inl, inr, true, false, List, [], ◌∷◌, ◌++◌,
  ◌==◌, length, length-append, All, if◌then◌else◌, Bool-cases,
}
use p2pool_observer.SideChain.PoolBlock.{PoolBlock}
use p2pool_observer.SideChain.State.{ChainState, list_of, find_height, get_by_height}
use p2pool_observer.SideChain.VerifyLoop.{reversed_onto, push_above, entries}

-- How many of some addresses have blocks without a verdict.
unfoldable pub pendings : (ℕ → PoolBlock) → List ℕ → ℕ
pendings heap [] = 0
pendings heap (x ∷ xs) = (if (heap x).verified then 0 else 1) + pendings heap xs

pub pendings-length : (heap : ℕ → PoolBlock) (xs : List ℕ) → pendings heap xs ≤ length xs
unfolding pendings
pendings-length heap [] = omega arith
pendings-length heap (x ∷ xs) = elim (Bool-cases (heap x).verified) [
  | inl flagged ↦ rw flagged (omega (arith, pendings-length heap xs))
  | inr unflagged ↦ rw unflagged (omega (arith, pendings-length heap xs))
]

module _ (heap heap' : ℕ → PoolBlock)
    (stays : (x : ℕ) → (heap x).verified ≡ true → (heap' x).verified ≡ true) where
  one-le : (x : ℕ) → (if (heap' x).verified then 0 else 1) ≤ (if (heap x).verified then 0 else 1)
  one-le x = elim (Bool-cases (heap x).verified) [
    | inl flagged ↦ rw (flagged, stays x flagged) (omega arith)
    | inr unflagged ↦ rw unflagged (elim (Bool-cases (heap' x).verified) [
      | inl now ↦ rw now (omega arith)
      | inr not_yet ↦ rw not_yet (omega arith)
    ])
  ]

  pub pendings-le : (xs : List ℕ) → pendings heap' xs ≤ pendings heap xs
  unfolding pendings
  pendings-le [] = omega arith
  pendings-le (x ∷ xs) = omega (arith, one-le x, pendings-le xs)

  pub pendings-lt :
      (xs : List ℕ) (a : ℕ)
      → Memᴰ a xs
      → (heap a).verified ≡ false
      → (heap' a).verified ≡ true
      → pendings heap' xs < pendings heap xs
  unfolding pendings
  pendings-lt [] a m before after = elim m [ ]
  pendings-lt (x ∷ xs) a (Memᴰ.head same) before after =
      rw (sym same, before, after) (omega (arith, pendings-le xs))
  pendings-lt (x ∷ xs) a (Memᴰ.tail m) before after =
      omega (arith, one-le x, pendings-lt xs a m before after)

module _ {κ} (P : ℕ → Type κ) where
  All-find_height :
      (m : List (ℕ × List ℕ)) (h : ℕ) → All P (entries m) → All P (list_of (find_height m h))
  unfolding find_height list_of entries
  All-find_height [] h all = tt
  All-find_height ((k, v) ∷ m) h all = elim (Bool-cases (k == h)) [
    | inl same ↦ rw same (All-left v (entries m) all)
    | inr other ↦ rw other (All-find_height m h (All-right v (entries m) all))
  ]
    where
      All-left : (xs ys : List ℕ) → All P (xs ++ ys) → All P xs
      All-left [] ys h = tt
      All-left (x ∷ xs) ys (p, h) = (p, All-left xs ys h)

      All-right : (xs ys : List ℕ) → All P (xs ++ ys) → All P ys
      All-right [] ys h = h
      All-right (x ∷ xs) ys (p, h) = All-right xs ys h

  All-reversed_onto : (v stack : List ℕ) → All P v → All P stack → All P (reversed_onto v stack)
  unfolding reversed_onto
  All-reversed_onto [] stack h k = k
  All-reversed_onto (a ∷ v) stack (p, h) k = All-reversed_onto v (a ∷ stack) h (p, k)

length-reversed_onto : (v stack : List ℕ) → length (reversed_onto v stack) ≡ length v + length stack
unfolding reversed_onto
length-reversed_onto [] stack = omega arith
length-reversed_onto (a ∷ v) stack = omega (arith, length-reversed_onto v (a ∷ stack))

length-find_height :
    (m : List (ℕ × List ℕ)) (h : ℕ) → length (list_of (find_height m h)) ≤ length (entries m)
unfolding find_height list_of entries
length-find_height [] h = omega arith
length-find_height ((k, v) ∷ m) h = elim (Bool-cases (k == h)) [
  | inl same ↦ rw same (omega (arith, length-append v (entries m)))
  | inr other ↦ rw other (omega (arith, length-append v (entries m), length-find_height m h))
]

pub push_above-All {κ} :
    (P : ℕ → Type κ) (s : ChainState) (h : ℕ) (stack : List ℕ)
    → All P (entries s.blocks_by_height)
    → All P stack
    → All P (push_above s h stack)
unfolding push_above get_by_height
push_above-All P s h stack all k =
    let at = λ (i : ℕ). All-find_height P s.blocks_by_height ((h + i) % 2 ^ 64) all in
    All-reversed_onto P _ _ (at 3)
      (All-reversed_onto P _ _ (at 2) (All-reversed_onto P _ _ (at 1) k))

pub length-push_above :
    (s : ChainState) (h : ℕ) (stack : List ℕ)
    → length (push_above s h stack) ≤ 3 * length (entries s.blocks_by_height) + length stack
unfolding push_above get_by_height
length-push_above s h stack =
    let at = λ (i : ℕ). list_of (find_height s.blocks_by_height ((h + i) % 2 ^ 64)) in
    let bound = λ (i : ℕ). length-find_height s.blocks_by_height ((h + i) % 2 ^ 64) in
    omega (
      arith,
      length-reversed_onto (at 3) (reversed_onto (at 2) (reversed_onto (at 1) stack)),
      length-reversed_onto (at 2) (reversed_onto (at 1) stack),
      length-reversed_onto (at 1) stack,
      bound 1,
      bound 2,
      bound 3,
    )
