-- ===== src/Transaction/Output.antt =====
-- monero/transaction/output.go and constants.go: the outputs of a coinbase transaction.
pub mod RoundTrip
use p2pool_observer.Prelude.{
  ℕ, zero, suc, ◌+◌, ◌-◌, ◌*◌, ◌/◌, ◌%◌, ◌^◌, ◌≤◌, ◌<◌, ◌≡◌, refl, arith, Bool, true, false, ◌&&◌,
  ◌||◌, List, [], ◌∷◌, ◌++◌, ltb, ◌==◌, if◌then◌else◌, length,
}
use p2pool_observer.Codec.{
  Reader, Result, ok, err, panic, stuck, Error, ◌>>=◌, ◌>>◌, pure, fail, require, read_byte,
  read_full, uvarint, read_uvarint, unknown_output_type, signed_count,
}
use p2pool_observer.Utils.Number.{uvarint64_size}

abbrev pub tx_out_to_key : ℕ
tx_out_to_key = 2

abbrev pub tx_out_to_tagged_key : ℕ
tx_out_to_tagged_key = 3

pub record Output : Type 0 where
  pub index : ℕ
  pub reward : ℕ
  pub ephemeral_public_key : List ℕ
  pub output_type : ℕ
  pub view_tag : ℕ

-- The body of the loop of Outputs.FromReader.
unfoldable pub output_from_reader : ℕ → Reader Output
output_from_reader index = do
  reward ← read_uvarint
  output_type ← read_byte
  require (output_type == tx_out_to_tagged_key || output_type == tx_out_to_key) unknown_output_type
  key ← read_full 32
  view_tag ← if output_type == tx_out_to_tagged_key then read_byte else pure 0
  pure (record {
    index = index;
    reward = reward;
    ephemeral_public_key = key;
    output_type = output_type;
    view_tag = view_tag;
  })

-- Its loop, with the rounds that are left, the index and the outputs so far.
unfoldable pub output_loop : ℕ → ℕ → List Output → Reader (List Output)
output_loop zero index s = pure s
output_loop (suc n) index s = do
  o ← output_from_reader index
  output_loop n (index + 1) (s ++ (o ∷ []))

-- Outputs.FromReader, on outputs `s`: they stay if the count is 0 or at least 8192.
unfoldable pub outputs_from_reader : List Output → Reader (List Output)
outputs_from_reader s = do
  output_count ← read_uvarint
  if ltb 0 output_count
      then output_loop (signed_count output_count) 0 (if ltb output_count 8192 then [] else s)
      else pure s

-- The size of one output in Outputs.BufferLength.
unfoldable pub output_buffer_length : Output → ℕ
output_buffer_length o =
    uvarint64_size o.reward + 1 + 32 + (if o.output_type == tx_out_to_tagged_key then 1 else 0)

unfoldable pub output_lengths : List Output → ℕ
output_lengths [] = 0
output_lengths (o ∷ s) = output_buffer_length o + output_lengths s

-- Outputs.BufferLength
unfoldable pub outputs_buffer_length : List Output → ℕ
outputs_buffer_length s = uvarint64_size (length s) + output_lengths s

-- The body of the loop of Outputs.AppendBinary.
unfoldable pub append_output : List ℕ → Output → Result (List ℕ)
append_output buf o =
    let head = (buf ++ uvarint o.reward) ++ (o.output_type ∷ []) in
    let keyed = head ++ o.ephemeral_public_key in
    if o.output_type == tx_out_to_tagged_key || o.output_type == tx_out_to_key
    then ok (if o.output_type == tx_out_to_tagged_key then keyed ++ (o.view_tag ∷ []) else keyed)
    else err unknown_output_type

unfoldable pub append_outputs : List ℕ → List Output → Result (List ℕ)
append_outputs buf [] = ok buf
append_outputs buf (o ∷ s) = elim (append_output buf o) [
  | ok more ↦ append_outputs more s
  | err e ↦ err e
  | panic ↦ panic
  | stuck ↦ stuck
]

-- Outputs.AppendBinary
unfoldable pub outputs_append_binary : List ℕ → List Output → Result (List ℕ)
outputs_append_binary buf s = append_outputs (buf ++ uvarint (length s)) s
