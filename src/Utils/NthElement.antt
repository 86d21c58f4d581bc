-- ===== src/Utils/NthElement.antt =====
-- utils/nthelement.go: the selection of the n-th smallest element. NthElementSliceFunc and partitionFunc
-- have the text of NthElementSlice and partition, with a comparison function.
pub mod Selects
use p2pool_observer.Prelude.{
  ℕ, zero, suc, ◌+◌, ◌-◌, ◌*◌, ◌/◌, Bool, true, false, Option, none, some, List, [], ◌∷◌, ltb, ◌==◌,
  if◌then◌else◌, length, get_elem?,
}
use p2pool_observer.Codec.{Result, ok, err, panic, stuck}
use p2pool_observer.Arrays.{swap}

-- A step that may fail, and what follows it.
unfoldable pub then_result {ℓ κ} : {A : Type ℓ} {B : Type κ} → Result A → (A → Result B) → Result B
then_result (ok a) f = f a
then_result (err e) f = err e
then_result panic f = panic
then_result stuck f = stuck

-- `less a b` is `a < b`, and `cmp(a, b) < 0`.
module _ {ℓ} {T : Type ℓ} (less : T → T → Bool) where
  unfoldable pub less_at : ℕ → ℕ → List T → Result Bool
  less_at i j s = elim (get_elem? s i) [
    | none ↦ panic
    | some a ↦ elim (get_elem? s j) [ none ↦ panic | some b ↦ ok (less a b) ]
  ]

  -- The loop of partition, with the rounds that are left and the store index.
  unfoldable pub partition_loop : ℕ → ℕ → ℕ → ℕ → List T → Result (List T × ℕ)
  partition_loop zero i store right s = ok (s, store)
  partition_loop (suc rounds) i store right s = then_result (less_at i right s) (λ below.
      elim below [
        | true ↦
            then_result (swap store i s) (λ s'. partition_loop rounds (i + 1) (store + 1) right s')
        | false ↦ partition_loop rounds (i + 1) store right s
      ])

  -- partition: the slice afterwards, and the pivot's index.
  unfoldable pub partition : ℕ → ℕ → ℕ → List T → Result (List T × ℕ)
  partition pivot left right s = then_result (swap pivot right s) (λ s1.
      then_result (partition_loop (right - left) left left right s1)
        (λ r. then_result (swap right r.1 r.0) (λ s3. ok (s3, r.1))))

  -- The loop of NthElementSlice.
  unfoldable pub nth_loop : ℕ → ℕ → ℕ → ℕ → List T → Result (List T)
  nth_loop zero left right k s = stuck
  nth_loop (suc fuel) left right k s =
      if left == right
      then ok s
      else then_result (partition ((left + right) / 2) left right s) (λ r.
        if k == r.1 then ok r.0 else elim (ltb k r.1) [
          | true ↦ nth_loop fuel left (r.1 - 1) k r.0
          | false ↦ nth_loop fuel (r.1 + 1) right k r.0
        ])

  -- NthElementSlice, on a slice that is not empty: an empty one panics.
  unfoldable pub nth_element : List T → ℕ → Result (List T)
  nth_element [] k = panic
  nth_element (x ∷ xs) k = nth_loop (suc (length xs)) 0 (length xs) k (x ∷ xs)
