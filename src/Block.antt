-- ===== src/Block.antt =====
-- monero/block/block.go: a Monero block, whole, pruned (without the outputs of its miner
-- transaction) and compact (without the transactions that its parent has).
pub mod RoundTrip
pub mod Emission
pub mod Merkle
use p2pool_observer.Prelude.{
  ℕ, zero, suc, ◌+◌, ◌*◌, Bool, true, false, List, [], ◌∷◌, ◌++◌, ltb, ◌==◌, if◌then◌else◌, length,
}
use p2pool_observer.Codec.{
  Reader, Result, ok, err, ◌>>=◌, pure, read_byte, read_full, uvarint, read_uvarint, le_bytes,
  read_le, signed_count, unsupported_major_version, minor_version_too_small,
}
use p2pool_observer.Codec.Hashes.{append_hashes, read_hashes}
use p2pool_observer.Utils.Number.{uvarint64_size}
use p2pool_observer.Types.Hash.{zero_hash}
use p2pool_observer.Transaction.Coinbase.{
  CoinbaseTransaction, coinbase_from_reader, coinbase_append_binary_flags, coinbase_buffer_length,
  coinbase_hashing_blob,
}

abbrev pub hard_fork_supported_version : ℕ
hard_fork_supported_version = 16

pub record Block : Type 0 where
  pub major_version : ℕ
  pub minor_version : ℕ
  pub nonce : ℕ
  pub timestamp : ℕ
  pub previous_id : List ℕ
  pub coinbase : CoinbaseTransaction
  pub transactions : List (List ℕ)
  pub transaction_parent_indices : List ℕ

-- Block.BufferLength
unfoldable pub block_buffer_length : Block → ℕ
block_buffer_length b =
    1
    + 1
    + uvarint64_size b.timestamp
    + 32
    + 4
    + coinbase_buffer_length b.coinbase
    + uvarint64_size (length b.transactions)
    + 32 * length b.transactions

-- Block.HeaderBlob
unfoldable pub header_blob : List ℕ → Block → List ℕ
header_blob buf b =
    let versions = (buf ++ (b.major_version ∷ [])) ++ (b.minor_version ∷ []) in
    ((versions ++ uvarint b.timestamp) ++ b.previous_id) ++ le_bytes 4 b.nonce

-- The loop over the transactions of a compact block: those with a parent index are left out.
unfoldable pub append_compact : List ℕ → List (List ℕ) → List ℕ → List ℕ
append_compact buf [] indices = buf
append_compact buf (h ∷ hs) [] = append_compact ((buf ++ uvarint 0) ++ h) hs []
append_compact buf (h ∷ hs) (p ∷ ps) =
    append_compact (if p == 0 then (buf ++ uvarint 0) ++ h else buf ++ uvarint p) hs ps

-- Block.AppendBinaryFlags; its first bytes are those of the header blob.
unfoldable pub block_append_binary_flags : List ℕ → Block → Bool → Bool → Result (List ℕ)
block_append_binary_flags buf b pruned compact =
    let body = coinbase_append_binary_flags (header_blob buf b) b.coinbase pruned in
    let counted = body ++ uvarint (length b.transactions) in
    if ltb hard_fork_supported_version b.major_version
    then err unsupported_major_version
    else if ltb b.minor_version b.major_version
    then err minor_version_too_small
    else ok (
        if compact
        then append_compact counted b.transactions b.transaction_parent_indices
        else append_hashes counted b.transactions)

-- The loop of a compact block, with the rounds left, the hashes and the indices so far.
unfoldable pub read_compact : ℕ → List (List ℕ) → List ℕ → Reader (List (List ℕ) × List ℕ)
read_compact zero hs ps = pure (hs, ps)
read_compact (suc n) hs ps = do
  parent_index ← read_uvarint
  h ← if parent_index == 0 then read_full 32 else pure zero_hash
  read_compact n (hs ++ (h ∷ [])) (ps ++ (parent_index ∷ []))

-- The hashes and the indices, on those of the receiver: 8192 hashes or more are appended to them.
unfoldable pub read_transactions :
    List (List ℕ) → List ℕ → Bool → ℕ → Reader (List (List ℕ) × List ℕ)
read_transactions hs ps compact tx_count =
    let old_hashes = if ltb tx_count 8192 then [] else hs in
    if compact
    then read_compact (signed_count tx_count) old_hashes (if ltb tx_count 8192 then [] else ps)
    else do hashes ← read_hashes (signed_count tx_count) old_hashes; pure (hashes, ps)

-- Block.FromReaderFlags on the receiver `b`; FromReader and FromCompactReader fix the flag.
unfoldable pub block_from_reader_flags : Block → Bool → Reader Block
block_from_reader_flags b compact = do
  major_version ← read_byte
  minor_version ← read_byte
  timestamp ← read_uvarint
  previous_id ← read_full 32
  nonce ← read_le 4
  coinbase ← coinbase_from_reader b.coinbase
  tx_count ← read_uvarint
  txs ← read_transactions b.transactions b.transaction_parent_indices compact tx_count
  pure (record {
    major_version = major_version;
    minor_version = minor_version;
    nonce = nonce;
    timestamp = timestamp;
    previous_id = previous_id;
    coinbase = coinbase;
    transactions = txs.0;
    transaction_parent_indices = txs.1;
  })

-- Block.SideChainHashingBlob: the nonce is blanked, and so are parts of the miner transaction.
unfoldable pub block_hashing_blob : List ℕ → Block → Bool → List ℕ
block_hashing_blob buf b zero_template_id =
    let head = header_blob buf (record b { nonce = 0 }) in
    append_hashes
      (coinbase_hashing_blob head b.coinbase zero_template_id ++ uvarint (length b.transactions))
      b.transactions
