-- ===== src/Utils/CircularBuffer/Recent.antt =====
-- What a push leaves in the buffer.
use p2pool_observer.Prelude.{
  ℕ, sym, zero, suc, ◌%◌, ◌<◌, ◌≡◌, ◌≢◌, refl, arith, false, some, List, [], ◌∷◌, ◌==◌, length,
  get_elem?, set, ap,
}
use p2pool_observer.Codec.{ok}
use p2pool_observer.Utils.CircularBuffer.{CircularBuffer, get, current, next_index, push}

length-set {ℓ} : {T : Type ℓ} → (xs : List T) (i : ℕ) (v : T) → length (set xs i v) ≡ length xs
length-set [] i v = refl
length-set (x ∷ xs) zero v = refl
length-set (x ∷ xs) (suc i) v = ap suc (length-set xs i v)

get_elem?-set {ℓ} :
    {T : Type ℓ} → (xs : List T) (i : ℕ) (v : T) → i < length xs → get_elem? (set xs i v) i ≡ some v
get_elem?-set [] i v h = absurd (omega arith)
get_elem?-set (x ∷ xs) zero v h = refl
get_elem?-set (x ∷ xs) (suc i) v h = get_elem?-set xs i v (omega arith)

get_elem?-set_other {ℓ} :
    {T : Type ℓ}
    → (xs : List T) (i j : ℕ) (v : T) → i ≢ j
    → get_elem? (set xs i v) j ≡ get_elem? xs j
get_elem?-set_other [] i j v h = refl
get_elem?-set_other (x ∷ xs) zero zero v h = absurd (h refl)
get_elem?-set_other (x ∷ xs) zero (suc j) v h = refl
get_elem?-set_other (x ∷ xs) (suc i) zero v h = refl
get_elem?-set_other (x ∷ xs) (suc i) (suc j) v h = get_elem?-set_other xs i j v (λ e. h (ap suc e))

-- Pushing on a buffer that has room for an element succeeds: the value is the current one
-- afterwards, the size is the same, and a position that belongs to another slot keeps its value.
pub get-push {ℓ} :
    {T : Type ℓ} (b : CircularBuffer T) (value : T) (other : ℕ)
    → 0 < length b.buffer
    → other % length b.buffer ≢ next_index b.index % length b.buffer
    → (b' : CircularBuffer T) × (push b value ≡ ok b')
      × (current b' ≡ ok value)
      × (length b'.buffer ≡ length b.buffer)
      × (get b' other ≡ get b other)
unfolding push current get
get-push b value other h ne = (
  record { buffer = set b.buffer slot value; index = next_index b.index },
  (rw nonempty refl),
  here,
  length-set b.buffer slot value,
  (rw
      (
        length-set b.buffer slot value,
        get,
        get_elem?-set_other b.buffer slot (other % length b.buffer) value (λ e. ne (sym e)),
      )
      refl),
)
  where
    slot : ℕ
    slot = next_index b.index % length b.buffer

    nonempty : (length b.buffer == 0) ≡ false
    nonempty = ground arith

    slot_small : slot < length b.buffer
    slot_small = grind arith

    here :
        get
          (record { buffer = set b.buffer slot value; index = next_index b.index })
          (next_index b.index)
        ≡ ok value
    here =
        rw (length-set b.buffer slot value, get, get_elem?-set b.buffer slot value slot_small) refl
