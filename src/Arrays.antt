-- ===== src/Arrays.antt =====
-- Slices that the program changes in place: the exchange of two elements.
use mathlib.Core.List.{Perm}
use mathlib.Core.List.Perm
use p2pool_observer.Prelude.{
  ℕ, zero, suc, ◌<◌, ◌≡◌, refl, ap, ◌∙◌, none, some, List, [], ◌∷◌, length, get_elem?, set,
  length-set, get_elem?-set_ne, get_elem?_total,
}
use p2pool_observer.Codec.{Result, ok, panic}
use native.Mathlib.Decide.{ℕ_discrete}

-- `s[i], s[j] = s[j], s[i]`
unfoldable pub swap {ℓ} : {T : Type ℓ} → ℕ → ℕ → List T → Result (List T)
swap i j s = elim (get_elem? s i) [
  | none ↦ panic
  | some a ↦ elim (get_elem? s j) [ none ↦ panic | some b ↦ ok (set (set s i b) j a) ]
]

module _ {ℓ} {T : Type ℓ} where
  set-perm : (s : List T) (i : ℕ) (a v : T) → get_elem? s i ≡ some a → Perm (a ∷ set s i v) (v ∷ s)
  set-perm [] i a v h = absurd (cc)
  set-perm (x ∷ s) zero a v h = let e : x ≡ a = cc in rw e (Perm.swap v a s)
  set-perm (x ∷ s) (suc i) a v h =
      Perm.trans (Perm.swap x a _) (Perm.trans (Perm.cons x (set-perm s i a v h)) (Perm.swap v x s))

  set_same : (s : List T) (i : ℕ) (a : T) → get_elem? s i ≡ some a → set s i a ≡ s
  set_same [] i a h = refl
  set_same (x ∷ s) zero a h = cc
  set_same (x ∷ s) (suc i) a h = ap (◌∷◌ x) (set_same s i a h)

  exchanged-perm :
      (s : List T) (i j : ℕ) (a b : T)
      → get_elem? s i ≡ some a
      → get_elem? s j ≡ some b
      → i < length s
      → Perm (set (set s i b) j a) s
  exchanged-perm s i j a b hi hj p = elim (ℕ_discrete i j) [
    | yes e ↦
        let at_i : get_elem? s i ≡ some b = rw e hj in
        let same : b ≡ a = cc in rw (same, ← e, set_same s i a hi, set_same s i a hi) Perm.rfl
    | no ne ↦
        let kept : get_elem? (set s i b) j ≡ some b = get_elem?-set_ne s b ne ∙ hj in
        Perm.cons_inv (Perm.trans (set-perm (set s i b) j b a kept) (set-perm s i a b hi))
  ]

  -- In bounds the exchange succeeds and keeps the elements and the length.
  pub swap_lem :
      (i j : ℕ) (s : List T)
      → i < length s
      → j < length s
      → (r : List T) × (swap i j s ≡ ok r) × Perm r s × (length r ≡ length s)
  unfolding swap
  swap_lem i j s hi hj =
      let (a, ea) = get_elem?_total s i hi in
      let (b, eb) = get_elem?_total s j hj in
      (
        set (set s i b) j a,
        (rw (ea, swap, eb) refl),
        exchanged-perm s i j a b ea eb hi,
        length-set (set s i b) j a ∙ length-set s i b,
      )
