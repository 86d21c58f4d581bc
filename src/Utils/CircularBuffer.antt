-- ===== src/Utils/CircularBuffer.antt =====
-- utils/circular_buffer.go: a fixed number of recent values. Every operation holds the buffer's lock.
pub mod Recent
use p2pool_observer.Prelude.{
  ℕ, zero, suc, ◌+◌, ◌-◌, ◌*◌, ◌/◌, ◌%◌, ◌^◌, Bool, true, false, ◌||◌, Option, none, some, List, [],
  ◌∷◌, ◌++◌, ◌==◌, if◌then◌else◌, length, get_elem?, set, replicate, ltb,
}
use p2pool_observer.Codec.{Result, ok, err, panic, stuck}
use p2pool_observer.Arrays.{swap}

pub record CircularBuffer {ℓ} (T : Type ℓ) : Type ℓ where
  pub buffer : List T
  pub index : ℕ

-- NewCircularBuffer, with the zero value of the element type.
unfoldable pub new_circular_buffer {ℓ} : {T : Type ℓ} → T → ℕ → CircularBuffer T
new_circular_buffer zero_value size = record { buffer = replicate size zero_value; index = 0 }

-- The element at `index % uint32(len(b.buffer))`: a division by zero panics.
unfoldable pub get {ℓ} : {T : Type ℓ} → CircularBuffer T → ℕ → Result T
get b index = elim (get_elem? b.buffer (index % length b.buffer)) [ none ↦ panic | some v ↦ ok v ]

-- Current
unfoldable pub current {ℓ} : {T : Type ℓ} → CircularBuffer T → Result T
current b = get b b.index

-- The index after `b.index.Add(1)`, which wraps.
unfoldable pub next_index : ℕ → ℕ
next_index index = (index + 1) % 2 ^ 32

-- Push
unfoldable pub push {ℓ} : {T : Type ℓ} → CircularBuffer T → T → Result (CircularBuffer T)
push b value =
    let index = next_index b.index in
    if length b.buffer == 0
    then panic
    else ok (record { buffer = set b.buffer (index % length b.buffer) value; index = index })

-- `eq` is the element type's `==`.
module _ {ℓ} {T : Type ℓ} (eq : T → T → Bool) where
  -- slices.Contains
  unfoldable pub contains : List T → T → Bool
  contains [] value = false
  contains (v ∷ vs) value = eq v value || contains vs value

  -- Exists
  unfoldable pub exists : CircularBuffer T → T → Bool
  exists b value = contains b.buffer value

  unfoldable pub replace_all : T → T → List T → List T
  replace_all value replacement [] = []
  replace_all value replacement (v ∷ vs) =
      (if eq value v then replacement else v) ∷ replace_all value replacement vs

  -- Replace
  unfoldable pub replace : CircularBuffer T → T → T → CircularBuffer T
  replace b value replacement = record b { buffer = replace_all value replacement b.buffer }

  -- PushUnique, with its return value.
  unfoldable pub push_unique : CircularBuffer T → T → Result (CircularBuffer T × Bool)
  push_unique b value =
      let index = next_index b.index in
      if length b.buffer == 0 || contains b.buffer value
      then ok (b, false)
      else ok
          (record { buffer = set b.buffer (index % length b.buffer) value; index = index }, true)

-- The loop of Reverse, with rounds that suffice when there are as many as elements.
unfoldable pub reverse_loop {ℓ} : {T : Type ℓ} → ℕ → ℕ → ℕ → List T → Result (List T)
reverse_loop zero i j buffer = if ltb i j then stuck else ok buffer
reverse_loop (suc n) i j buffer = elim (ltb i j) [
  | false ↦ ok buffer
  | true ↦ elim (swap i j buffer) [
    | ok buffer' ↦ reverse_loop n (i + 1) (j - 1) buffer'
    | err e ↦ err e
    | panic ↦ panic
    | stuck ↦ stuck
  ]
]

-- Reverse
unfoldable pub reverse {ℓ} : {T : Type ℓ} → CircularBuffer T → Result (List T)
reverse b = reverse_loop (length b.buffer) 0 (length b.buffer - 1) b.buffer
