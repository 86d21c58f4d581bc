-- ===== src/Transaction/Output/RoundTrip.antt =====
-- What Outputs.AppendBinary writes, Outputs.FromReader reads back; and how long it is.
use p2pool_observer.Prelude.{
  ℕ, suc, ◌+◌, ◌*◌, ◌≤◌, ◌<◌, ◌≡◌, refl, sym, subst, lt→ltb, ap, ◌∙◌, arith, true, ◌||◌, ◌⊎◌, inl,
  inr, List, [], ◌∷◌, ◌++◌, ◌==◌, if◌then◌else◌, length, length-append, append_assoc, append-nil,
  All,
}
use p2pool_observer.Codec.{ok, pure, read_byte, uvarint, signed_count_small, IsU64, IsByte}
use p2pool_observer.Codec.Reads.{
  Reads, Reads-bind, Reads-pure, Reads-then, Reads-read_byte, Reads-read_full,
}
use p2pool_observer.Codec.Uvarint.{Reads-uvarint}
use p2pool_observer.Utils.Number.Size.{length-uvarint, uvarint64_size-le}
use p2pool_observer.Transaction.Output.{
  Output, output_from_reader, output_loop, outputs_from_reader, output_buffer_length,
  output_lengths, outputs_buffer_length, append_output, append_outputs, outputs_append_binary,
}

-- The outputs that the decoder can return: a known type, a 32-byte key, and no view tag on a plain key.
pub record IsOutput (o : Output) : Type 0 where
  pub reward_fits : IsU64 o.reward
  pub key_length : length o.ephemeral_public_key ≡ 32
  pub known_type :
      ((o.output_type ≡ 3) × IsByte o.view_tag) ⊎ ((o.output_type ≡ 2) × (o.view_tag ≡ 0))

-- Each output carries its position.
abbrev pub Indexed : ℕ → List Output → Type 0
Indexed i [] = Unit {0}
Indexed i (o ∷ s) = (o.index ≡ i) × Indexed (i + 1) s

view_tag_bytes : Output → List ℕ
view_tag_bytes o = if o.output_type == 3 then o.view_tag ∷ [] else []

-- The bytes of one output, and of several.
pub output_bytes : Output → List ℕ
output_bytes o =
    uvarint o.reward
    ++ ((o.output_type ∷ []) ++ (o.ephemeral_public_key ++ (view_tag_bytes o ++ [])))

unfoldable pub outputs_bytes : List Output → List ℕ
outputs_bytes [] = []
outputs_bytes (o ∷ s) = output_bytes o ++ outputs_bytes s

append_output-bytes :
    (buf : List ℕ) (o : Output) → IsOutput o → append_output buf o ≡ ok (buf ++ output_bytes o)
unfolding append_output output_bytes view_tag_bytes
append_output-bytes buf o v = elim v.known_type [
  | inl (t, _) ↦ rw t (ap ok (simp append_assoc))
  | inr (t, _) ↦ rw t (ap ok (simp (append_assoc, append-nil)))
]

append_outputs-bytes :
    (buf : List ℕ) (s : List Output)
    → All IsOutput s
    → append_outputs buf s ≡ ok (buf ++ outputs_bytes s)
unfolding append_outputs outputs_bytes
append_outputs-bytes buf [] v = ap ok (sym (append-nil buf))
append_outputs-bytes buf (o ∷ s) (v, vs) =
    rw (append_output-bytes buf o v, append_outputs)
      (append_outputs-bytes (buf ++ output_bytes o) s vs
        ∙ ap ok (append_assoc buf (output_bytes o) (outputs_bytes s)))

-- Outputs.AppendBinary keeps the buffer and appends the count and the outputs.
pub outputs_append_binary-bytes :
    (buf : List ℕ) (s : List Output)
    → All IsOutput s
    → outputs_append_binary buf s ≡ ok (buf ++ (uvarint (length s) ++ outputs_bytes s))
unfolding outputs_append_binary
outputs_append_binary-bytes buf s v =
    append_outputs-bytes (buf ++ uvarint (length s)) s v ∙ ap ok (append_assoc buf _ _)

Reads-view_tag :
    (o : Output)
    → IsOutput o
    → Reads (if o.output_type == 3 then read_byte else pure 0) (view_tag_bytes o) o.view_tag
unfolding view_tag_bytes
Reads-view_tag o v = elim v.known_type [
  | inl (t, b) ↦ rw t (Reads-read_byte o.view_tag)
  | inr (t, z) ↦ rw (t, z) (Reads-pure 0)
]

known_type-require : (o : Output) → IsOutput o → (o.output_type == 3 || o.output_type == 2) ≡ true
known_type-require o v = elim v.known_type [ inl (t, _) ↦ rw t | inr (t, _) ↦ rw t ]

Reads-output : (o : Output) → IsOutput o → Reads (output_from_reader o.index) (output_bytes o) o
unfolding output_from_reader output_bytes
Reads-output o v = Reads-bind _ _ _ _ (Reads-uvarint o.reward v.reward_fits) (
    Reads-bind _ _ _ _ (Reads-read_byte o.output_type) (
      Reads-then _ _ _ _ (known_type-require o v) (
        Reads-bind _ _ _ _ (Reads-read_full 32 o.ephemeral_public_key v.key_length)
          (Reads-bind _ _ _ _ (Reads-view_tag o v) (Reads-pure o)))))

Reads-outputs :
    (i : ℕ) (s t : List Output)
    → All IsOutput t
    → Indexed i t
    → Reads (output_loop (length t) i s) (outputs_bytes t) (s ++ t)
unfolding output_loop outputs_bytes
Reads-outputs i s [] v ix = rw append-nil (Reads-pure s)
Reads-outputs i s (o ∷ t) (v, vs) (e, ix) =
    Reads-bind _ _ _ _
      (subst (λ k. Reads (output_from_reader k) (output_bytes o) o) e (Reads-output o v))
      (rw append_assoc at (Reads-outputs (i + 1) (s ++ (o ∷ [])) t vs ix))

length-output_bytes : (o : Output) → IsOutput o → length (output_bytes o) ≡ output_buffer_length o
unfolding output_bytes output_buffer_length view_tag_bytes
length-output_bytes o v = elim v.known_type [
  | inl (t, _) ↦
      rw t (simp length-append (omega (arith, v.key_length, length-uvarint o.reward v.reward_fits)))
  | inr (t, _) ↦
      rw t (simp length-append (omega (arith, v.key_length, length-uvarint o.reward v.reward_fits)))
]

length-outputs : (s : List Output) → All IsOutput s → length (outputs_bytes s) ≡ output_lengths s
unfolding outputs_bytes output_lengths
length-outputs [] v = refl
length-outputs (o ∷ s) (v, vs) = omega (
  arith,
  length-append (output_bytes o) (outputs_bytes s),
  length-output_bytes o v,
  length-outputs s vs,
)

pub length-outputs_bytes :
    (s : List Output)
    → All IsOutput s
    → length s < 8192
    → length (uvarint (length s) ++ outputs_bytes s) ≡ outputs_buffer_length s
unfolding outputs_buffer_length
length-outputs_bytes s v h = omega (
  arith,
  length-append (uvarint (length s)) (outputs_bytes s),
  length-uvarint (length s) (omega arith),
  length-outputs s v,
)

-- The decoder reads back the outputs that were encoded, and leaves what follows; an empty list
-- keeps the outputs that the receiver had.
pub Reads-outputs_from_reader :
    (s : List Output)
    → All IsOutput s
    → Indexed 0 s
    → length s < 8192
    → Reads (outputs_from_reader []) (uvarint (length s) ++ outputs_bytes s) s
unfolding outputs_from_reader
Reads-outputs_from_reader [] v ix h =
    Reads-bind _ _ _ _ (Reads-uvarint 0 (omega arith)) (unfold outputs_bytes in Reads-pure [])
Reads-outputs_from_reader (o ∷ t) v ix h =
    Reads-bind _ _ _ _ (Reads-uvarint (suc (length t)) (omega arith)) (
      rw
        (
          lt→ltb 0 (suc (length t)) (omega arith),
          signed_count_small (suc (length t)) (omega arith),
          lt→ltb (suc (length t)) 8192 h,
        )
        (Reads-outputs 0 [] (o ∷ t) v ix))

-- Fewer than 8192 outputs of known types, with keys of 32 bytes, no view tag on a plain key, and indices
-- from 0 on, are encoded without an error in as many bytes as BufferLength says, and decoded back by
-- an empty receiver, whatever follows.
pub outputs-round_trip :
    (s : List Output) (rest : List ℕ)
    → All IsOutput s
    → Indexed 0 s
    → length s < 8192
    → (buf : List ℕ) × (outputs_append_binary [] s ≡ ok buf)
      × (outputs_from_reader [] (buf ++ rest) ≡ ok (s, rest))
      × (length buf ≡ outputs_buffer_length s)
outputs-round_trip s rest v ix h = (
  uvarint (length s) ++ outputs_bytes s,
  outputs_append_binary-bytes [] s v,
  (Reads-outputs_from_reader s v ix h).run rest,
  length-outputs_bytes s v h,
)

output_lengths-le : (s : List Output) → output_lengths s ≤ 44 * length s
unfolding output_lengths output_buffer_length
output_lengths-le [] = omega arith
output_lengths-le (o ∷ s) = ground (arith, output_lengths-le s, uvarint64_size-le o.reward)

pub outputs_buffer_length-le : (s : List Output) → outputs_buffer_length s ≤ 10 + 44 * length s
unfolding outputs_buffer_length
outputs_buffer_length-le s = omega (arith, output_lengths-le s, uvarint64_size-le (length s))
