-- ===== src/Transaction/Coinbase.antt =====
-- monero/transaction/coinbase.go and utils/limitreader.go: the miner transaction.
pub mod RoundTrip
use p2pool_observer.Prelude.{
  ℕ, zero, suc, ◌+◌, ◌%◌, ◌^◌, Bool, true, false, ◌||◌, List, [], ◌∷◌, ◌++◌, ltb, leb, ◌==◌,
  if◌then◌else◌, length, take, drop,
}
use p2pool_observer.Codec.{
  Reader, Result, ok, err, panic, stuck, ◌>>=◌, ◌>>◌, pure, fail, require, read_byte, uvarint,
  read_uvarint, unsupported_version, invalid_input_count, invalid_input_type, invalid_unlock_time,
  extra_too_large, leftover_extra, invalid_base_rct, unknown_output_type,
}
use p2pool_observer.Utils.Number.{uvarint64_size}
use p2pool_observer.Transaction.Output.{
  Output, outputs_from_reader, outputs_append_binary, outputs_buffer_length, tx_out_to_key,
  tx_out_to_tagged_key,
}
use p2pool_observer.Transaction.Extra.{
  ExtraTag, extra_tags_from_reader, append_tags, tags_buffer_length, tags_hashing_blob,
}

abbrev pub tx_in_gen : ℕ
tx_in_gen = 0xff

abbrev pub miner_reward_unlock_time : ℕ
miner_reward_unlock_time = 60

pub record CoinbaseTransaction : Type 0 where
  pub version : ℕ
  pub input_count : ℕ
  pub input_type : ℕ
  pub unlock_time : ℕ
  pub gen_height : ℕ
  pub outputs : List Output
  pub outputs_blob_size : ℕ
  pub total_reward : ℕ
  pub extra : List ExtraTag
  pub extra_base_rct : ℕ

-- LimitByteReader: the decoder sees the next `n` bytes, and must read them all (Left() > 0 is an
-- error). Where the stream itself is shorter, the source reports this error or an io.EOF on the
-- next read; the model reports this one.
unfoldable pub limited : {A : Type 0} → ℕ → Reader A → Reader A
limited n m bs = elim (m (take n bs)) [
  | ok (a, rest) ↦
      if ltb (length bs) n || ltb 0 (length rest) then err leftover_extra else ok (a, drop n bs)
  | err e ↦ err e
  | panic ↦ panic
  | stuck ↦ stuck
]

-- The sizes and rewards of the outputs, from those so far: a fixed size for each, and a wrapping sum.
unfoldable pub tally_outputs : ℕ → ℕ → List Output → Reader (ℕ × ℕ)
tally_outputs size reward [] = pure (size, reward)
tally_outputs size reward (o ∷ s) =
    if o.output_type == tx_out_to_tagged_key
    then tally_outputs (size + (1 + 32 + 1)) ((reward + o.reward) % 2 ^ 64) s
    else if o.output_type == tx_out_to_key
    then tally_outputs (size + (1 + 32)) ((reward + o.reward) % 2 ^ 64) s
    else fail unknown_output_type

-- A pruned transaction has no outputs, but its total reward and the size of their encoding.
unfoldable pub read_sizes : List Output → Reader (ℕ × ℕ)
read_sizes [] = do
  total_reward ← read_uvarint
  outputs_blob_size ← read_uvarint
  pure (outputs_blob_size, total_reward)
read_sizes (o ∷ s) = tally_outputs 0 0 (o ∷ s)

-- CoinbaseTransaction.FromReader on the receiver `c`.
unfoldable pub coinbase_from_reader : CoinbaseTransaction → Reader CoinbaseTransaction
coinbase_from_reader c = do
  version ← read_byte
  require (version == 2) unsupported_version
  unlock_time ← read_uvarint
  input_count ← read_byte
  require (input_count == 1) invalid_input_count
  input_type ← read_byte
  require (input_type == tx_in_gen) invalid_input_type
  gen_height ← read_uvarint
  require (unlock_time == (gen_height + miner_reward_unlock_time) % 2 ^ 64) invalid_unlock_time
  outputs ← outputs_from_reader c.outputs
  sizes ← read_sizes outputs
  extra_size ← read_uvarint
  require (leb extra_size 65536) extra_too_large
  extra ← limited extra_size (extra_tags_from_reader c.extra)
  extra_base_rct ← read_byte
  require (extra_base_rct == 0) invalid_base_rct
  pure (record {
    version = version;
    input_count = input_count;
    input_type = input_type;
    unlock_time = unlock_time;
    gen_height = gen_height;
    outputs = outputs;
    outputs_blob_size = sizes.0;
    total_reward = sizes.1;
    extra = extra;
    extra_base_rct = extra_base_rct;
  })

-- CoinbaseTransaction.BufferLength
unfoldable pub coinbase_buffer_length : CoinbaseTransaction → ℕ
coinbase_buffer_length c =
    1
    + uvarint64_size c.unlock_time
    + 1
    + 1
    + uvarint64_size c.gen_height
    + outputs_buffer_length c.outputs
    + uvarint64_size (tags_buffer_length c.extra)
    + tags_buffer_length c.extra
    + 1

-- `buf, _ = ...`: an error that is dropped leaves a nil buffer.
unfoldable pub or_nil : Result (List ℕ) → List ℕ
or_nil (ok buf) = buf
or_nil (err e) = []
or_nil panic = []
or_nil stuck = []

unfoldable pub append_coinbase_head : List ℕ → CoinbaseTransaction → List ℕ
append_coinbase_head buf c =
    let unlocked = (buf ++ (c.version ∷ [])) ++ uvarint c.unlock_time in
    ((unlocked ++ (c.input_count ∷ [])) ++ (c.input_type ∷ [])) ++ uvarint c.gen_height

-- The outputs, or in their place a zero count, the total reward and their size.
unfoldable pub append_coinbase_outputs : List ℕ → CoinbaseTransaction → Bool → List ℕ
append_coinbase_outputs buf c pruned =
    if pruned
    then ((buf ++ uvarint 0) ++ uvarint c.total_reward)
      ++ uvarint (length (or_nil (outputs_append_binary [] c.outputs)))
    else or_nil (outputs_append_binary buf c.outputs)

-- CoinbaseTransaction.AppendBinaryFlags
unfoldable pub coinbase_append_binary_flags : List ℕ → CoinbaseTransaction → Bool → List ℕ
coinbase_append_binary_flags buf c pruned =
    let body = append_coinbase_outputs (append_coinbase_head buf c) c pruned in
    append_tags (body ++ uvarint (tags_buffer_length c.extra)) c.extra ++ (c.extra_base_rct ∷ [])

-- CoinbaseTransaction.SideChainHashingBlob
unfoldable pub coinbase_hashing_blob : List ℕ → CoinbaseTransaction → Bool → List ℕ
coinbase_hashing_blob buf c zero_template_id =
    let body = append_coinbase_outputs (append_coinbase_head buf c) c false in
    tags_hashing_blob (body ++ uvarint (tags_buffer_length c.extra)) zero_template_id c.extra
    ++ (c.extra_base_rct ∷ [])
