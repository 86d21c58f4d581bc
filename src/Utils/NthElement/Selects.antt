-- ===== src/Utils/NthElement/Selects.antt =====
-- The selection ends, in bounds, and moves elements only.
use mathlib.Core.List.{Perm}
use mathlib.Core.List.Perm
use p2pool_observer.Prelude.{
  ℕ, zero, suc, ◌+◌, ◌-◌, ◌/◌, ◌<◌, ◌≤◌, ◌≡◌, refl, ap, ◌∙◌, arith, Bool, inl, inr, List, [], ◌∷◌,
  ltb, ◌==◌, length, get_elem?_total, Bool-cases,
}
use p2pool_observer.Codec.{Result, ok}
use p2pool_observer.Arrays.{swap_lem}
use p2pool_observer.Utils.NthElement.{
  then_result, less_at, partition_loop, partition, nth_loop, nth_element,
}

module _ {ℓ} {T : Type ℓ} (less : T → T → Bool) where
  less_at-ok :
      (i j : ℕ) (s : List T)
      → i < length s
      → j < length s
      → (b : Bool) × (less_at less i j s ≡ ok b)
  unfolding less_at
  less_at-ok i j s hi hj =
      let (a, ea) = get_elem?_total s i hi in
      let (b, eb) = get_elem?_total s j hj in (less a b, (rw (ea, less_at, eb) refl))

  -- A partition of `s`, of length `n`, with the pivot between `low` and `high`.
  record Parts (result : Result (List T × ℕ)) (s : List T) (n low high : ℕ) : Type ℓ where
    slice : List T
    index : ℕ
    returns : result ≡ ok (slice, index)
    moved : Perm slice s
    same_length : length slice ≡ n
    index_from : low ≤ index
    index_to : index ≤ high

  partition_loop-Parts :
      (rounds i store right n : ℕ) (s : List T)
      → length s ≡ n
      → store ≤ i
      → i + rounds ≡ right
      → right < n
      → Parts (partition_loop less rounds i store right s) s n store right
  unfolding partition_loop then_result
  partition_loop-Parts zero i store right n s l le e h = record {
    slice = s;
    index = store;
    returns = refl;
    moved = Perm.rfl;
    same_length = l;
    index_from = omega arith;
    index_to = omega arith;
  }
  partition_loop-Parts (suc rounds) i store right n s l le e h =
      let (below, eb) = less_at-ok i right s (omega arith) (omega arith) in
      elim (Bool-cases below) [
        | inl y ↦
            let (s', e', m, l') = swap_lem store i s (omega arith) (omega arith) in
            let p =
              partition_loop-Parts rounds (i + 1) (store + 1) right n s' (l' ∙ l) (omega arith)
                (omega arith) h in
            record {
              slice = p.slice;
              index = p.index;
              returns = rw (eb ∙ ap ok y, partition_loop, e') p.returns;
              moved = Perm.trans p.moved m;
              same_length = p.same_length;
              index_from = omega (arith, p.index_from);
              index_to = p.index_to;
            }
        | inr stays ↦
            let p =
              partition_loop-Parts rounds (i + 1) store right n s l (omega arith) (omega arith) h in
            record {
              slice = p.slice;
              index = p.index;
              returns = rw (eb ∙ ap ok stays, partition_loop) p.returns;
              moved = p.moved;
              same_length = p.same_length;
              index_from = p.index_from;
              index_to = p.index_to;
            }
      ]

  partition-Parts :
      (pivot left right n : ℕ) (s : List T)
      → length s ≡ n
      → left ≤ right
      → pivot ≤ right
      → right < n
      → Parts (partition less pivot left right s) s n left right
  unfolding partition then_result
  partition-Parts pivot left right n s l le lp h =
      let (s1, e1, m1, l1) = swap_lem pivot right s (omega arith) (omega arith) in
      let p =
        partition_loop-Parts (right - left) left left right n s1 (l1 ∙ l) (omega arith)
          (omega arith) h in
      let (s3, e3, m3, l3) =
        swap_lem right p.index p.slice (omega (arith, p.same_length))
          (omega (arith, p.same_length, p.index_to)) in
      record {
        slice = s3;
        index = p.index;
        returns = rw (e1, partition, p.returns, e3) refl;
        moved = Perm.trans m3 (Perm.trans p.moved m1);
        same_length = l3 ∙ p.same_length;
        index_from = p.index_from;
        index_to = p.index_to;
      }

  nth_loop-perm :
      (fuel left right k n : ℕ) (s : List T)
      → length s ≡ n
      → left ≤ k
      → k ≤ right
      → right < n
      → right - left < fuel
      → (r : List T) × (nth_loop less fuel left right k s ≡ ok r) × Perm r s × (length r ≡ n)
  unfolding nth_loop then_result
  nth_loop-perm zero left right k n s l a b h f = absurd (omega arith)
  nth_loop-perm (suc fuel) left right k n s l a b h f = elim (Bool-cases (left == right)) [
    | inl one ↦ (s, (rw (one, nth_loop) refl), Perm.rfl, l)
    | inr more ↦
        let p =
          partition-Parts ((left + right) / 2) left right n s l (omega arith) (omega arith) h in
        elim (Bool-cases (k == p.index)) [
          | inl here ↦
              (p.slice, (rw (more, nth_loop, p.returns, here) refl), p.moved, p.same_length)
          | inr elsewhere ↦ elim (Bool-cases (ltb k p.index)) [
            | inl lower ↦
                let (r, e, m, q) =
                  nth_loop-perm fuel left (p.index - 1) k n p.slice p.same_length a
                    (ground (arith, lower)) (omega (arith, p.index_to))
                    (ground (arith, more, lower, p.index_to)) in
                (r, (rw (more, nth_loop, p.returns, elsewhere, lower) e), Perm.trans m p.moved, q)
            | inr higher ↦
                let (r, e, m, q) =
                  nth_loop-perm fuel (p.index + 1) right k n p.slice p.same_length
                    (ground (arith, higher, elsewhere)) b h
                    (ground (arith, more, higher, p.index_from)) in
                (r, (rw (more, nth_loop, p.returns, elsewhere, higher) e), Perm.trans m p.moved, q)
          ]
        ]
  ]

  -- For an index in range, NthElementSlice ends without indexing out of range, after at most as many
  -- rounds as there are elements, and leaves a permutation of the slice, whatever the comparison.
  pub nth_element-perm :
      (s : List T) (k : ℕ)
      → k < length s
      → (r : List T) × (nth_element less s k ≡ ok r) × Perm r s × (length r ≡ length s)
  unfolding nth_element
  nth_element-perm [] k h = absurd (omega arith)
  nth_element-perm (x ∷ xs) k h =
      nth_loop-perm (suc (length xs)) 0 (length xs) k (suc (length xs)) (x ∷ xs) refl (omega arith)
        (omega arith) (omega arith) (omega arith)
