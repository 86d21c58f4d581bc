-- ===== src/SideChain/PoolBlock.antt =====
-- p2pool/sidechain/poolblock.go: a share, which is a Monero block and its side data.
pub mod RoundTrip
pub mod Filling
use p2pool_observer.Prelude.{
  ℕ, zero, suc, ◌+◌, ◌-◌, ◌*◌, ◌/◌, ◌%◌, ◌^◌, Bool, true, false, not, ◌&&◌, ◌||◌, Option, none,
  some, List, [], ◌∷◌, ◌++◌, ltb, leb, ◌==◌, if◌then◌else◌, length, get_elem?, set, take, replicate,
}
use p2pool_observer.Codec.{
  Reader, Result, ok, err, panic, stuck, ◌>>=◌, ◌>>◌, pure, require, le_bytes, le_value,
  buffer_too_large, wrong_major_version, parent_index_out_of_bounds, parent_is_nil,
}
use p2pool_observer.Types.Hash.{bytes_eq, zero_hash, hash_from_bytes}
use p2pool_observer.Transaction.Output.{tx_out_to_key, tx_out_to_tagged_key}
use p2pool_observer.Transaction.Extra.{
  ExtraTag, get_tag, tx_extra_tag_merge_mining, tx_extra_tag_nonce, tx_extra_tag_pub_key,
}
use p2pool_observer.Block.{
  Block, block_buffer_length, block_append_binary_flags, block_from_reader_flags,
  block_hashing_blob,
}
use p2pool_observer.SideChain.SideData.{
  SideData, side_data_buffer_length, side_data_append_binary, side_data_from_reader,
  share_version_none, share_version_v1, share_version_v2,
}
use p2pool_observer.SideChain.HardFork.{
  HardFork, NetworkType, network_major_version, p2pool_share_version,
}

abbrev pub pool_block_max_template_size : ℕ
pool_block_max_template_size = 128 * 1024 - (1 + 4)

abbrev pub side_extra_nonce_size : ℕ
side_extra_nonce_size = 4

abbrev pub side_extra_nonce_max_size : ℕ
side_extra_nonce_max_size = side_extra_nonce_size + 10

abbrev pub hard_fork_view_tags_version : ℕ
hard_fork_view_tags_version = 15

-- Pointers to blocks are addresses; a nil parent is `none`.
pub record IterationCache : Type 0 where
  pub parent : Option ℕ
  pub uncles : List ℕ

-- PoolBlock, but for its cache, which keeps hashes of the block that were computed before.
pub record PoolBlock : Type 0 where
  pub main : Block
  pub side : SideData
  pub depth : ℕ
  pub verified : Bool
  pub invalid : Bool
  pub want_broadcast : Bool
  pub broadcasted : Bool
  pub local_timestamp : ℕ
  pub cached_share_version : ℕ
  pub iteration_cache : Option IterationCache

-- PoolBlock.NeedsCompactTransactionFilling
unfoldable pub contains_hash : List (List ℕ) → List ℕ → Bool
contains_hash [] h = false
contains_hash (x ∷ xs) h = bytes_eq x h || contains_hash xs h

unfoldable pub needs_compact_transaction_filling : PoolBlock → Bool
needs_compact_transaction_filling b =
    ltb 0 (length b.main.transaction_parent_indices)
    && length b.main.transaction_parent_indices == length b.main.transactions
    && contains_hash b.main.transactions zero_hash

-- PoolBlock.CoinbaseExtra for a tag, with the bounds on the length of its data; nil is empty.
unfoldable pub extra_data : PoolBlock → ℕ → ℕ → ℕ → List ℕ
extra_data b tag least most = elim (get_tag tag b.main.coinbase.extra) [
  | none ↦ []
  | some t ↦ if ltb (length t.content) least || ltb most (length t.content) then [] else t.content
]

-- CoinbaseExtra(SideExtraNonce), CoinbaseExtra(SideTemplateId) and CoinbaseExtra(SideCoinbasePublicKey)
unfoldable pub coinbase_extra_nonce : PoolBlock → List ℕ
coinbase_extra_nonce b =
    extra_data b tx_extra_tag_nonce side_extra_nonce_size side_extra_nonce_max_size

unfoldable pub coinbase_template_id : PoolBlock → List ℕ
coinbase_template_id b = extra_data b tx_extra_tag_merge_mining 32 32

unfoldable pub coinbase_public_key : PoolBlock → List ℕ
coinbase_public_key b = extra_data b tx_extra_tag_pub_key 32 32

-- PoolBlock.ExtraNonce
unfoldable pub extra_nonce : PoolBlock → ℕ
extra_nonce b =
    let nonce = coinbase_extra_nonce b in
    if ltb (length nonce) side_extra_nonce_size then 0 else le_value (take 4 nonce)

-- PoolBlock.ShareVersionSignaling; `n & 0xFF000000 == 0xFF000000` reads the top byte.
unfoldable pub share_version_signaling : PoolBlock → ℕ
share_version_signaling b =
    if b.cached_share_version == share_version_v1 && extra_nonce b / 2 ^ 24 % 256 == 0xff
    then share_version_v2
    else share_version_none

-- PoolBlock.FullId: the slice of the first four bytes of an extra nonce that is not there panics.
unfoldable pub full_id : PoolBlock → Result (List ℕ)
full_id b =
    let nonce = coinbase_extra_nonce b in
    let id = coinbase_template_id b in
    let padded_id = if length id == 32 then id else zero_hash in
    if ltb (length nonce) side_extra_nonce_size
    then panic
    else ok ((padded_id ++ le_bytes 4 b.main.nonce) ++ take side_extra_nonce_size nonce)

-- The test of both filling functions that `parent` is the parent of the block.
unfoldable pub is_parent_of : PoolBlock → PoolBlock → Bool
is_parent_of parent b = bytes_eq (hash_from_bytes (coinbase_template_id parent)) b.side.parent

-- The loop of FillTransactionsFromTransactionParentIndices: the `i`-th transaction is taken from the
-- parent, where the index says so.
unfoldable pub fill_loop : List (List ℕ) → ℕ → List ℕ → List (List ℕ) → Result (List (List ℕ))
fill_loop from i [] txs = ok txs
fill_loop from i (zero ∷ ps) txs = fill_loop from (i + 1) ps txs
fill_loop from i (suc p ∷ ps) txs = elim (ltb (length from) p) [
  | true ↦ err parent_index_out_of_bounds
  | false ↦ elim (get_elem? from p) [
    | none ↦ panic
    | some h ↦ fill_loop from (i + 1) ps (set txs i h)
  ]
]

-- FillTransactionsFromTransactionParentIndices: the transactions afterwards. Those that were filled
-- before an error are not kept here.
unfoldable pub fill_transactions : PoolBlock → Option PoolBlock → Result (List (List ℕ))
fill_transactions b parent =
    if needs_compact_transaction_filling b
    then elim parent [
      | none ↦ err parent_is_nil
      | some p ↦
          if is_parent_of p b
          then fill_loop p.main.transactions 0 b.main.transaction_parent_indices b.main.transactions
          else ok b.main.transactions
    ]
    else ok b.main.transactions

-- slices.Index, plus one; 0 where it is -1.
unfoldable pub index_plus_one : List (List ℕ) → List ℕ → ℕ
index_plus_one [] h = 0
index_plus_one (x ∷ xs) h =
    if bytes_eq x h then 1 else if index_plus_one xs h == 0 then 0 else index_plus_one xs h + 1

unfoldable pub parent_indices : List (List ℕ) → List (List ℕ) → List ℕ
parent_indices from [] = []
parent_indices from (h ∷ hs) = index_plus_one from h ∷ parent_indices from hs

-- FillTransactionParentIndices: the indices afterwards, and the return value.
unfoldable pub fill_parent_indices : PoolBlock → Option PoolBlock → List ℕ × Bool
fill_parent_indices b parent =
    if length b.main.transactions == length b.main.transaction_parent_indices
    then (b.main.transaction_parent_indices, true)
    else elim parent [
      | none ↦ (b.main.transaction_parent_indices, false)
      | some p ↦
          if is_parent_of p b
          then (parent_indices p.main.transactions b.main.transactions, true)
          else (b.main.transaction_parent_indices, false)
    ]

-- PoolBlock.NeedsPreProcess
unfoldable pub needs_pre_process : PoolBlock → Bool
needs_pre_process b =
    needs_compact_transaction_filling b
    || not (length b.main.transactions == length b.main.transaction_parent_indices)
    || length b.main.coinbase.outputs == 0

-- PoolBlock.GetTransactionOutputType
unfoldable pub transaction_output_type : PoolBlock → ℕ
transaction_output_type b =
    if leb hard_fork_view_tags_version b.main.major_version
    then tx_out_to_tagged_key
    else tx_out_to_key

-- PoolBlock.BufferLength
unfoldable pub pool_block_buffer_length : PoolBlock → ℕ
pool_block_buffer_length b = block_buffer_length b.main + side_data_buffer_length b.side

-- PoolBlock.AppendBinaryFlags
unfoldable pub pool_block_append_binary_flags : List ℕ → PoolBlock → Bool → Bool → Result (List ℕ)
pool_block_append_binary_flags buf b pruned compact =
    elim (block_append_binary_flags buf b.main pruned compact) [
      | ok main ↦
          let whole = side_data_append_binary main b.side b.cached_share_version in
          if ltb pool_block_max_template_size (length whole) then err buffer_too_large else ok whole
      | err e ↦ err e
      | panic ↦ panic
      | stuck ↦ stuck
    ]

-- The two tests between the block and the side data; a block without a merge mining tag makes
-- `t == nil && t.VarInt != 32` read through a nil pointer.
unfoldable pub check_block : NetworkType → Block → Reader (Unit {0})
check_block network main bs = elim (network_major_version network main.coinbase.gen_height) [
  | none ↦ panic
  | some expected ↦
      if expected == main.major_version
      then elim (get_tag tx_extra_tag_merge_mining main.coinbase.extra) [
        | none ↦ panic
        | some t ↦ ok (tt, bs)
      ]
      else err wrong_major_version
]

-- `private_key_of` is the cache's GetDeterministicTransactionKey (the private key's bytes), and the
-- package p2pool/crypto's GetDeterministicTransactionPrivateKey, of a seed and a block's PreviousId.
module _ (private_key_of : List ℕ → List ℕ → List ℕ) where
  -- PoolBlock.GetPrivateKeySeed
  unfoldable pub private_key_seed : PoolBlock → List ℕ
  private_key_seed b =
      let old_seed = b.side.spend_public_key in
      if ltb share_version_v1 b.cached_share_version
      then b.side.coinbase_private_key_seed
      else if ltb b.main.major_version hard_fork_view_tags_version
          && not (bytes_eq (private_key_of old_seed b.main.previous_id) b.side.coinbase_private_key)
      then zero_hash
      else old_seed

  -- PoolBlock.FillPrivateKeys
  unfoldable pub fill_private_keys : PoolBlock → PoolBlock
  fill_private_keys b =
      let filled = private_key_of (private_key_seed b) b.main.previous_id in
      if ltb share_version_v1 b.cached_share_version
      then (if bytes_eq b.side.coinbase_private_key zero_hash
          then record b { side = record b.side { coinbase_private_key = filled } }
          else b)
      else record b { side = record b.side { coinbase_private_key_seed = private_key_seed b } }

  -- PoolBlock.FromReader, and FromCompactReader where `compact`, on the receiver `b`.
  unfoldable pub pool_block_from_reader :
      NetworkType → List HardFork → Bool → PoolBlock → Reader PoolBlock
  pool_block_from_reader network hard_forks compact b = do
    main ← block_from_reader_flags b.main compact
    check_block network main
    let version = p2pool_share_version hard_forks main.timestamp
    side ← side_data_from_reader b.side version
    pure (fill_private_keys (record b { main = main; cached_share_version = version; side = side }))
