-- ===== src/Transaction/Coinbase/RoundTrip.antt =====
-- What CoinbaseTransaction.AppendBinaryFlags writes, FromReader reads back, whole or pruned.
use p2pool_observer.Prelude.{
  ℕ, ==_iff, ◌+◌, ◌%◌, ◌^◌, ◌<◌, ◌≤◌, ◌≡◌, refl, sym, ap, ap₂, ◌∙◌, arith, Bool, true, false, List,
  [], ◌∷◌, ◌++◌, ltb, ◌==◌, if◌then◌else◌, length, length-append, take-append_length,
  drop-append_length, append_assoc, append-nil, All, inl, inr,
}
use p2pool_observer.Codec.{Reader, ok, uvarint, IsU64}
use p2pool_observer.Codec.Reads.{
  Reads, Reads-cast, Reads-bind, Reads-then, Reads-map, Reads-pure, Reads-read_byte,
}
use p2pool_observer.Codec.Uvarint.{Reads-uvarint}
use p2pool_observer.Transaction.Output.{Output, outputs_from_reader, outputs_buffer_length}
use p2pool_observer.Transaction.Output.RoundTrip.{
  IsOutput, Indexed, outputs_bytes, outputs_append_binary-bytes, Reads-outputs_from_reader,
  length-outputs_bytes, outputs_buffer_length-le,
}
use p2pool_observer.Transaction.Extra.{extra_tags_from_reader, tags_buffer_length}
use p2pool_observer.Transaction.Extra.RoundTrip.{
  IsTag, KeyFirst, Fresh, tags_bytes, append_tags-bytes, extra_tags_from_reader-bytes,
  length-tags_bytes,
}
use p2pool_observer.Transaction.Coinbase.{
  CoinbaseTransaction, limited, tally_outputs, read_sizes, coinbase_from_reader, or_nil,
  append_coinbase_head, append_coinbase_outputs, coinbase_append_binary_flags,
}

Reads-limited :
    {A : Type 0} (m : Reader A) (bs : List ℕ) (a : A)
    → m bs ≡ ok (a, [])
    → Reads (limited (length bs) m) bs a
unfolding limited
Reads-limited m bs a e = record {
  run = λ rest.
      let enough : ltb (length (bs ++ rest)) (length bs) ≡ false =
        ground (arith, length-append bs rest) in
      rw (take-append_length bs rest, limited, e, enough, drop-append_length bs rest);
}

-- The sizes that FromReader computes for decoded outputs.
unfoldable pub fixed_sizes : List Output → ℕ
fixed_sizes [] = 0
fixed_sizes (o ∷ s) = (if o.output_type == 3 then 34 else 33) + fixed_sizes s

unfoldable pub reward_sum : List Output → ℕ
reward_sum [] = 0
reward_sum (o ∷ s) = o.reward + reward_sum s

tally-sizes :
    (size reward : ℕ) (s : List Output) (bs : List ℕ)
    → All IsOutput s
    → reward + reward_sum s < 2 ^ 64
    → tally_outputs size reward s bs ≡ ok ((size + fixed_sizes s, reward + reward_sum s), bs)
unfolding tally_outputs fixed_sizes reward_sum
tally-sizes size reward [] bs v h = ap₂ (λ m n. ok ((m, n), bs)) (omega arith) (omega arith)
tally-sizes size reward (o ∷ s) bs (v, vs) h =
    let e : (reward + o.reward) % 2 ^ 64 ≡ reward + o.reward = omega arith in
    elim v.known_type [
      | inl (t, _) ↦
          rw (t, e)
            (tally-sizes (size + 34) (reward + o.reward) s bs vs (omega arith)
              ∙ ap₂ (λ m n. ok ((m, n), bs)) (omega arith) (omega arith))
      | inr (t, _) ↦
          rw (t, e)
            (tally-sizes (size + 33) (reward + o.reward) s bs vs (omega arith)
              ∙ ap₂ (λ m n. ok ((m, n), bs)) (omega arith) (omega arith))
    ]

-- A transaction as FromReader returns it, with outputs.
pub record IsCoinbase (c : CoinbaseTransaction) : Type 0 where
  pub version : c.version ≡ 2
  pub input_count : c.input_count ≡ 1
  pub input_type : c.input_type ≡ 0xff
  pub unlock_time_fits : IsU64 c.unlock_time
  pub gen_height_fits : IsU64 c.gen_height
  pub unlock_time : c.unlock_time ≡ (c.gen_height + 60) % 2 ^ 64
  pub outputs_valid : All IsOutput c.outputs
  pub outputs_indexed : Indexed 0 c.outputs
  pub outputs_some : 0 < length c.outputs
  pub outputs_few : length c.outputs < 8192
  pub reward_fits : reward_sum c.outputs < 2 ^ 64
  pub total_reward : c.total_reward ≡ reward_sum c.outputs
  pub outputs_blob_size : c.outputs_blob_size ≡ fixed_sizes c.outputs
  pub extra_valid : All IsTag c.extra
  pub extra_key_first : KeyFirst c.extra
  pub extra_fresh : Fresh [] c.extra
  pub extra_small : tags_buffer_length c.extra ≤ 65536
  pub base_rct : c.extra_base_rct ≡ 0

outputs_blob : CoinbaseTransaction → List ℕ
outputs_blob c = uvarint (length c.outputs) ++ outputs_bytes c.outputs

-- What follows the outputs, and what stands for them.
extra_part : CoinbaseTransaction → List ℕ
extra_part c =
    uvarint (tags_buffer_length c.extra) ++ (tags_bytes c.extra ++ ((c.extra_base_rct ∷ []) ++ []))

sizes_part : CoinbaseTransaction → Bool → List ℕ
sizes_part c pruned =
    if pruned then uvarint c.total_reward ++ uvarint (length (outputs_blob c)) else []

pub coinbase_bytes : CoinbaseTransaction → Bool → List ℕ
coinbase_bytes c pruned =
    (c.version ∷ [])
    ++ (uvarint c.unlock_time
        ++ ((c.input_count ∷ [])
            ++ ((c.input_type ∷ [])
                ++ (uvarint c.gen_height
                    ++ ((if pruned then uvarint 0 else outputs_blob c)
                        ++ (sizes_part c pruned ++ extra_part c))))))

pub coinbase_append_binary_flags-bytes :
    (buf : List ℕ) (c : CoinbaseTransaction) (pruned : Bool)
    → IsCoinbase c
    → coinbase_append_binary_flags buf c pruned ≡ buf ++ coinbase_bytes c pruned
unfolding coinbase_append_binary_flags append_coinbase_head append_coinbase_outputs or_nil
    coinbase_bytes sizes_part extra_part outputs_blob
coinbase_append_binary_flags-bytes buf c true v =
    rw (outputs_append_binary-bytes [] c.outputs v.outputs_valid)
      (simp (append_tags-bytes, append_assoc))
coinbase_append_binary_flags-bytes buf c false v =
    rw (outputs_append_binary-bytes _ c.outputs v.outputs_valid)
      (simp (append_tags-bytes, append_assoc))

-- What FromReader makes of the encoding: a pruned one has lost the outputs, and knows their size.
abbrev pub decoded : CoinbaseTransaction → Bool → CoinbaseTransaction
decoded c pruned = record c {
  outputs = (if pruned then [] else c.outputs);
  outputs_blob_size = (if pruned then outputs_buffer_length c.outputs else c.outputs_blob_size);
}

abbrev decoded_outputs : CoinbaseTransaction → Bool → List Output
decoded_outputs c pruned = if pruned then [] else c.outputs

abbrev decoded_sizes : CoinbaseTransaction → Bool → ℕ × ℕ
decoded_sizes c pruned =
    ((if pruned then outputs_buffer_length c.outputs else c.outputs_blob_size), c.total_reward)

module _ (c : CoinbaseTransaction) (v : IsCoinbase c) where
  blob_length : length (outputs_blob c) ≡ outputs_buffer_length c.outputs
  unfolding outputs_blob
  blob_length = length-outputs_bytes c.outputs v.outputs_valid v.outputs_few

  Reads-outputs :
      (pruned : Bool)
      → Reads
          (outputs_from_reader [])
          (if pruned then uvarint 0 else outputs_blob c)
          (decoded_outputs c pruned)
  unfolding outputs_blob outputs_bytes
  Reads-outputs true =
      Reads-cast refl (sym (append-nil (uvarint 0)))
        (Reads-outputs_from_reader [] tt tt (omega arith))
  Reads-outputs false =
      Reads-outputs_from_reader c.outputs v.outputs_valid v.outputs_indexed v.outputs_few

  read_sizes-outputs :
      (s : List Output) (bs : List ℕ)
      → 0 < length s
      → All IsOutput s
      → reward_sum s < 2 ^ 64
      → read_sizes s bs ≡ ok ((fixed_sizes s, reward_sum s), bs)
  unfolding read_sizes
  read_sizes-outputs [] bs p a h = absurd (omega arith)
  read_sizes-outputs (o ∷ s) bs p a h =
      tally-sizes 0 0 (o ∷ s) bs a (omega arith)
      ∙ ap₂ (λ m n. ok ((m, n), bs)) (omega arith) (omega arith)

  blob_small : outputs_buffer_length c.outputs < 2 ^ 64
  blob_small = omega (arith, outputs_buffer_length-le c.outputs, v.outputs_few)

  Reads-sizes :
      (pruned : Bool)
      → Reads (read_sizes (decoded_outputs c pruned)) (sizes_part c pruned) (decoded_sizes c pruned)
  unfolding read_sizes sizes_part
  Reads-sizes true =
      Reads-bind _ _ _ _ (Reads-uvarint c.total_reward (rw v.total_reward v.reward_fits)) (
        Reads-map _ (λ n. (n, c.total_reward)) _
          (Reads-uvarint (length (outputs_blob c)) (rw blob_length blob_small))
          (ap (λ n. (n, c.total_reward)) blob_length))
  Reads-sizes false = record {
    run = λ rest.
        read_sizes-outputs c.outputs rest v.outputs_some v.outputs_valid v.reward_fits
        ∙ ap₂ (λ m n. ok ((m, n), rest)) (sym v.outputs_blob_size) (sym v.total_reward);
  }

  Reads-extra :
      Reads
        (limited (tags_buffer_length c.extra) (extra_tags_from_reader []))
        (tags_bytes c.extra)
        c.extra
  Reads-extra = rw (length-tags_bytes c.extra v.extra_valid) at (
      Reads-limited (extra_tags_from_reader []) (tags_bytes c.extra) c.extra
        (extra_tags_from_reader-bytes c.extra v.extra_valid v.extra_key_first v.extra_fresh))

  pub Reads-coinbase :
      (r : CoinbaseTransaction) (pruned : Bool)
      → r.outputs ≡ []
      → r.extra ≡ []
      → Reads (coinbase_from_reader r) (coinbase_bytes c pruned) (decoded c pruned)
  unfolding coinbase_from_reader coinbase_bytes extra_part
  Reads-coinbase r pruned no_outputs no_extra = Reads-bind _ _ _ _ (Reads-read_byte c.version) (
      Reads-then _ _ _ _ (rw v.version) (
        Reads-bind _ _ _ _ (Reads-uvarint c.unlock_time v.unlock_time_fits) (
          Reads-bind _ _ _ _ (Reads-read_byte c.input_count) (
            Reads-then _ _ _ _ (rw v.input_count) (
              Reads-bind _ _ _ _ (Reads-read_byte c.input_type) (
                Reads-then _ _ _ _ (rw v.input_type) (
                  Reads-bind _ _ _ _ (Reads-uvarint c.gen_height v.gen_height_fits) (
                    Reads-then _ _ _ _ ((==_iff _ _).1 v.unlock_time) (
                      Reads-bind _ _ _ _
                        (Reads-cast (ap outputs_from_reader no_outputs) refl (Reads-outputs pruned))
                        (Reads-bind _ _ _ _ (Reads-sizes pruned) (
                          Reads-bind _ _ _ _
                            (Reads-uvarint (tags_buffer_length c.extra)
                              (omega (arith, v.extra_small)))
                            (Reads-then _ _ _ _ (ground (arith, v.extra_small)) (
                              Reads-bind _ _ _ _
                                (Reads-cast
                                  (ap
                                    (λ ts.
                                      limited (tags_buffer_length c.extra)
                                        (extra_tags_from_reader ts))
                                    no_extra)
                                  refl Reads-extra)
                                (Reads-bind _ _ _ _ (Reads-read_byte c.extra_base_rct) (
                                  Reads-then _ _ _ _ (rw v.base_rct)
                                    (Reads-pure (decoded c pruned)))))))))))))))))

-- A well-formed transaction with 1 to 8191 outputs, and with extra tags that decode to themselves, is
-- decoded by a receiver without outputs and tags: to itself from its whole encoding, and to what the
-- pruned form stores from its pruned encoding, whatever follows.
pub coinbase-round_trip :
    (r c : CoinbaseTransaction) (pruned : Bool) (rest : List ℕ)
    → r.outputs ≡ []
    → r.extra ≡ []
    → IsCoinbase c
    → coinbase_from_reader r (coinbase_append_binary_flags [] c pruned ++ rest)
      ≡ ok (decoded c pruned, rest)
coinbase-round_trip r c pruned rest no_outputs no_extra v =
    rw (coinbase_append_binary_flags-bytes [] c pruned v)
      ((Reads-coinbase c v r pruned no_outputs no_extra).run rest)
