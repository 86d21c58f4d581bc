-- ===== src/Block/RoundTrip.antt =====
-- What Block.AppendBinaryFlags writes, FromReaderFlags reads back: whole, pruned or compact.
use p2pool_observer.Prelude.{
  ℕ, zero, suc, ◌^◌, ◌<◌, ◌≤◌, ◌≡◌, refl, sym, ap, ◌∙◌, arith, Bool, true, false, List, [], ◌∷◌,
  ◌++◌, ltb, lt→ltb, ◌==◌, if◌then◌else◌, length, append_assoc, append-nil, All,
}
use p2pool_observer.Codec.{ok, uvarint, le_bytes, signed_count_small, IsU64}
use p2pool_observer.Codec.Reads.{
  Reads, Reads-bind, Reads-map, Reads-pure, Reads-read_byte, Reads-read_full, Reads-read_le,
}
use p2pool_observer.Codec.Uvarint.{Reads-uvarint}
use p2pool_observer.Codec.Hashes.{IsHash, hashes_bytes, append_hashes-bytes, Reads-hashes}
use p2pool_observer.Types.Hash.{zero_hash}
use p2pool_observer.Transaction.Coinbase.RoundTrip.{
  IsCoinbase, decoded, coinbase_bytes, coinbase_append_binary_flags-bytes, Reads-coinbase,
}
use p2pool_observer.Block.{
  Block, header_blob, append_compact, block_append_binary_flags, read_compact, read_transactions,
  block_from_reader_flags,
}

-- What is left of the hashes in a compact block, and the indices that it has for all of them.
unfoldable pub kept_hashes : List (List ℕ) → List ℕ → List (List ℕ)
kept_hashes [] ps = []
kept_hashes (h ∷ hs) [] = h ∷ kept_hashes hs []
kept_hashes (h ∷ hs) (p ∷ ps) = (if p == 0 then h else zero_hash) ∷ kept_hashes hs ps

pub padded_indices : List (List ℕ) → List ℕ → List ℕ
padded_indices [] ps = []
padded_indices (h ∷ hs) [] = 0 ∷ padded_indices hs []
padded_indices (h ∷ hs) (p ∷ ps) = p ∷ padded_indices hs ps

compact_bytes : List (List ℕ) → List ℕ → List ℕ
compact_bytes [] ps = []
compact_bytes (h ∷ hs) [] = uvarint 0 ++ (h ++ compact_bytes hs [])
compact_bytes (h ∷ hs) (p ∷ ps) = uvarint p ++ ((if p == 0 then h else []) ++ compact_bytes hs ps)

suc_nonzero : (p : ℕ) → (suc p == 0) ≡ false
suc_nonzero p = ground arith

append_compact-bytes :
    (buf : List ℕ) (hs : List (List ℕ)) (ps : List ℕ)
    → append_compact buf hs ps ≡ buf ++ compact_bytes hs ps
unfolding append_compact compact_bytes
append_compact-bytes buf [] ps = sym (append-nil buf)
append_compact-bytes buf (h ∷ hs) [] =
    append_compact-bytes ((buf ++ uvarint 0) ++ h) hs [] ∙ simp append_assoc
append_compact-bytes buf (h ∷ hs) (zero ∷ ps) =
    append_compact-bytes ((buf ++ uvarint 0) ++ h) hs ps ∙ simp append_assoc
append_compact-bytes buf (h ∷ hs) (suc p ∷ ps) = rw suc_nonzero (
    append_compact-bytes (buf ++ uvarint (suc p)) hs ps
    ∙ append_assoc buf (uvarint (suc p)) (compact_bytes hs ps))

Reads-compact :
    (hs ts : List (List ℕ)) (qs ps : List ℕ)
    → All IsHash ts
    → All IsU64 ps
    → Reads
        (read_compact (length ts) hs qs)
        (compact_bytes ts ps)
        (hs ++ kept_hashes ts ps, qs ++ padded_indices ts ps)
unfolding read_compact compact_bytes kept_hashes padded_indices
Reads-compact hs [] qs ps v u = rw (append-nil hs, append-nil qs) (Reads-pure (hs, qs))
Reads-compact hs (t ∷ ts) qs [] (v, vs) u = Reads-bind _ _ _ _ (Reads-uvarint 0 (omega arith)) (
    Reads-bind _ _ _ _ (Reads-read_full 32 t v) (
      rw (append_assoc hs, append_assoc qs) at
        (Reads-compact (hs ++ (t ∷ [])) ts (qs ++ (0 ∷ [])) [] vs tt)))
Reads-compact hs (t ∷ ts) qs (zero ∷ ps) (v, vs) (u, us) =
    Reads-bind _ _ _ _ (Reads-uvarint 0 (omega arith)) (
      Reads-bind _ _ _ _ (Reads-read_full 32 t v) (
        rw (append_assoc hs, append_assoc qs) at
          (Reads-compact (hs ++ (t ∷ [])) ts (qs ++ (0 ∷ [])) ps vs us)))
Reads-compact hs (t ∷ ts) qs (suc p ∷ ps) (v, vs) (u, us) = rw suc_nonzero (
    Reads-bind _ _ _ _ (Reads-uvarint (suc p) u) (
      rw suc_nonzero (
        Reads-bind _ (λ h. read_compact (length ts) (hs ++ (h ∷ [])) (qs ++ (suc p ∷ []))) _ _
          (Reads-pure zero_hash)
          (rw (append_assoc hs, append_assoc qs) at
            (Reads-compact (hs ++ (zero_hash ∷ [])) ts (qs ++ (suc p ∷ [])) ps vs us)))))

-- A block as the decoder returns it.
pub record IsBlock (b : Block) : Type 0 where
  pub major_supported : b.major_version ≤ 16
  pub minor_above : b.major_version ≤ b.minor_version
  pub timestamp_fits : IsU64 b.timestamp
  pub previous_id_length : IsHash b.previous_id
  pub nonce_fits : b.nonce < 2 ^ 32
  pub coinbase_valid : IsCoinbase b.coinbase
  pub hash_lengths : All IsHash b.transactions
  pub hashes_few : length b.transactions < 8192
  pub indices_fit : All IsU64 b.transaction_parent_indices

-- What the decoder makes of the encoding, on a receiver `r`.
abbrev pub decoded_block : Block → Block → Bool → Bool → Block
decoded_block r b pruned compact = record b {
  coinbase = decoded b.coinbase pruned;
  transactions =
      (if compact then kept_hashes b.transactions b.transaction_parent_indices else b.transactions);
  transaction_parent_indices =
      (if compact
        then padded_indices b.transactions b.transaction_parent_indices
        else r.transaction_parent_indices);
}

transactions_bytes : Block → Bool → List ℕ
transactions_bytes b compact =
    if compact
    then compact_bytes b.transactions b.transaction_parent_indices
    else hashes_bytes b.transactions

pub block_bytes : Block → Bool → Bool → List ℕ
block_bytes b pruned compact =
    (b.major_version ∷ [])
    ++ ((b.minor_version ∷ [])
        ++ (uvarint b.timestamp
            ++ (b.previous_id
                ++ (le_bytes 4 b.nonce
                    ++ (coinbase_bytes b.coinbase pruned
                        ++ (uvarint (length b.transactions)
                            ++ (transactions_bytes b compact ++ [])))))))

pub block_append_binary_flags-bytes :
    (buf : List ℕ) (b : Block) (pruned compact : Bool)
    → IsBlock b
    → block_append_binary_flags buf b pruned compact ≡ ok (buf ++ block_bytes b pruned compact)
unfolding block_append_binary_flags header_blob block_bytes transactions_bytes
block_append_binary_flags-bytes buf b pruned true v =
    rw (supported, above, coinbase_append_binary_flags-bytes _ b.coinbase pruned v.coinbase_valid)
      (ap ok (simp (append_compact-bytes, append_assoc, append-nil)))
  where
    supported : ltb 16 b.major_version ≡ false
    supported = ground (arith, v.major_supported)

    above : ltb b.minor_version b.major_version ≡ false
    above = ground (arith, v.minor_above)
block_append_binary_flags-bytes buf b pruned false v =
    rw (supported, above, coinbase_append_binary_flags-bytes _ b.coinbase pruned v.coinbase_valid)
      (ap ok (simp (append_hashes-bytes, append_assoc, append-nil)))
  where
    supported : ltb 16 b.major_version ≡ false
    supported = ground (arith, v.major_supported)

    above : ltb b.minor_version b.major_version ≡ false
    above = ground (arith, v.minor_above)

module _ (r b : Block) (v : IsBlock b) where
  Reads-transactions :
      (compact : Bool)
      → Reads
          (read_transactions r.transactions r.transaction_parent_indices compact
            (length b.transactions))
          (transactions_bytes b compact)
          (
            (if compact
                then kept_hashes b.transactions b.transaction_parent_indices
                else b.transactions),
            (if compact
                then padded_indices b.transactions b.transaction_parent_indices
                else r.transaction_parent_indices),
          )
  unfolding read_transactions transactions_bytes
  Reads-transactions true =
      rw
        (
          lt→ltb _ 8192 v.hashes_few,
          signed_count_small (length b.transactions) (omega (arith, v.hashes_few)),
        )
        (Reads-compact [] b.transactions [] b.transaction_parent_indices v.hash_lengths
          v.indices_fit)
  Reads-transactions false =
      rw
        (
          lt→ltb _ 8192 v.hashes_few,
          signed_count_small (length b.transactions) (omega (arith, v.hashes_few)),
        )
        (Reads-map _ (λ hs. (hs, r.transaction_parent_indices)) _
          (Reads-hashes [] b.transactions v.hash_lengths) refl)

  pub Reads-block :
      (pruned compact : Bool)
      → r.coinbase.outputs ≡ []
      → r.coinbase.extra ≡ []
      → Reads
          (block_from_reader_flags r compact)
          (block_bytes b pruned compact)
          (decoded_block r b pruned compact)
  unfolding block_from_reader_flags block_bytes
  Reads-block pruned compact no_outputs no_extra =
      Reads-bind _ _ _ _ (Reads-read_byte b.major_version) (
        Reads-bind _ _ _ _ (Reads-read_byte b.minor_version) (
          Reads-bind _ _ _ _ (Reads-uvarint b.timestamp v.timestamp_fits) (
            Reads-bind _ _ _ _ (Reads-read_full 32 b.previous_id v.previous_id_length) (
              Reads-bind _ _ _ _ (Reads-read_le 4 b.nonce (omega (arith, v.nonce_fits))) (
                Reads-bind _ _ _ _
                  (Reads-coinbase b.coinbase v.coinbase_valid r.coinbase pruned no_outputs no_extra)
                  (Reads-bind _ _ _ _
                    (Reads-uvarint (length b.transactions) (omega (arith, v.hashes_few)))
                    (Reads-bind _ _ _ _ (Reads-transactions compact)
                      (Reads-pure (decoded_block r b pruned compact)))))))))

-- A well-formed block is encoded without an error, and decoded by a receiver whose miner transaction is
-- empty to what the form keeps, whatever follows: to the block itself when it is whole, without the
-- outputs when it is pruned, and with zero hashes for the transactions that have a parent index, and
-- an index for every transaction, when it is compact.
pub block-round_trip :
    (r b : Block) (pruned compact : Bool) (rest : List ℕ)
    → r.coinbase.outputs ≡ []
    → r.coinbase.extra ≡ []
    → IsBlock b
    → (buf : List ℕ) × (block_append_binary_flags [] b pruned compact ≡ ok buf)
      × (block_from_reader_flags r compact (buf ++ rest)
          ≡ ok (decoded_block r b pruned compact, rest))
block-round_trip r b pruned compact rest no_outputs no_extra v = (
  block_bytes b pruned compact,
  block_append_binary_flags-bytes [] b pruned compact v,
  (Reads-block r b v pruned compact no_outputs no_extra).run rest,
)
