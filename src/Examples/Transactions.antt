-- ===== src/Examples/Transactions.antt =====
-- A miner transaction and its parts.
use p2pool_observer.Prelude.{
  ℕ, ◌≡◌, refl, arith, true, false, inl, inr, List, [], ◌∷◌, ◌++◌, All, length,
}
use p2pool_observer.Codec.{ok}
use p2pool_observer.Utils.Number.{uvarint64_size}
use p2pool_observer.Transaction.Output.{
  Output, outputs_append_binary, outputs_from_reader, outputs_buffer_length,
}
use p2pool_observer.Transaction.Output.RoundTrip.{IsOutput, outputs-round_trip}
use p2pool_observer.Transaction.Extra.{
  ExtraTag, extra_tags_from_reader, append_tags, get_tag, tag_buffer_length, tags_buffer_length,
}
use p2pool_observer.Transaction.Extra.RoundTrip.{
  IsTag, KeyFirst, Fresh, pub_key, nonce, merge_mining, extra_tags-round_trip,
}
use p2pool_observer.Transaction.Coinbase.{
  CoinbaseTransaction, coinbase_from_reader, coinbase_append_binary_flags,
}
use p2pool_observer.Transaction.Coinbase.RoundTrip.{
  IsCoinbase, decoded, fixed_sizes, reward_sum, coinbase-round_trip,
}
use p2pool_observer.Examples.{some_key, other_key}

abbrev tagged_output : Output
tagged_output = record {
  index = 0;
  reward = 600000000000;
  ephemeral_public_key = some_key;
  output_type = 3;
  view_tag = 200;
}

abbrev plain_output : Output
plain_output = record {
  index = 1;
  reward = 5;
  ephemeral_public_key = other_key;
  output_type = 2;
  view_tag = 0;
}

abbrev two_outputs : List Output
two_outputs = tagged_output ∷ plain_output ∷ []

two_outputs-IsOutput : All IsOutput two_outputs
two_outputs-IsOutput = (
  record { reward_fits = omega arith; key_length = refl; known_type = inl (refl, omega arith) },
  (record { reward_fits = omega arith; key_length = refl; known_type = inr (refl, refl) }, tt),
)

outputs-round_trip_example :
    (buf : List ℕ) × (outputs_append_binary [] two_outputs ≡ ok buf)
    × (outputs_from_reader [] (buf ++ (1 ∷ [])) ≡ ok (two_outputs, 1 ∷ []))
    × (length buf ≡ outputs_buffer_length two_outputs)
outputs-round_trip_example =
    outputs-round_trip two_outputs (1 ∷ []) two_outputs-IsOutput (refl, (refl, tt)) (omega arith)

abbrev three_tags : List ExtraTag
three_tags =
    record { tag = 1; has_var_int = false; var_int = 0; content = some_key }
    ∷ record { tag = 2; has_var_int = true; var_int = 4; content = 1 ∷ 2 ∷ 3 ∷ 4 ∷ [] }
    ∷ record { tag = 3; has_var_int = true; var_int = 300; content = other_key }
    ∷ []

three_tags-IsTag : All IsTag three_tags
three_tags-IsTag = (
  pub_key refl refl refl refl,
  (nonce (inl refl) refl refl (omega arith), (merge_mining refl refl (omega arith) refl, tt)),
)

three_tags-KeyFirst : KeyFirst three_tags
three_tags-KeyFirst = (λ e. omega arith, (λ e. omega arith, tt))

three_tags-Fresh : Fresh [] three_tags
unfolding get_tag
three_tags-Fresh = (refl, (refl, (refl, tt)))

extra_tags-round_trip_example :
    (extra_tags_from_reader [] (append_tags [] three_tags) ≡ ok (three_tags, []))
    × (length (append_tags [] three_tags) ≡ tags_buffer_length three_tags)
extra_tags-round_trip_example =
    extra_tags-round_trip three_tags three_tags-IsTag three_tags-KeyFirst three_tags-Fresh

abbrev pub blank : CoinbaseTransaction
blank = record {
  version = 0;
  input_count = 0;
  input_type = 0;
  unlock_time = 0;
  gen_height = 0;
  outputs = [];
  outputs_blob_size = 0;
  total_reward = 0;
  extra = [];
  extra_base_rct = 0;
}

abbrev pub miner_tx : CoinbaseTransaction
miner_tx = record {
  version = 2;
  input_count = 1;
  input_type = 0xff;
  unlock_time = 2900060;
  gen_height = 2900000;
  outputs = two_outputs;
  outputs_blob_size = 67;
  total_reward = 600000000005;
  extra = three_tags;
  extra_base_rct = 0;
}

pub miner_tx-IsCoinbase : IsCoinbase miner_tx
unfolding reward_sum fixed_sizes tags_buffer_length tag_buffer_length uvarint64_size
miner_tx-IsCoinbase = record {
  version = refl;
  input_count = refl;
  input_type = refl;
  unlock_time_fits = omega arith;
  gen_height_fits = omega arith;
  unlock_time = refl;
  outputs_valid = two_outputs-IsOutput;
  outputs_indexed = (refl, (refl, tt));
  outputs_some = omega arith;
  outputs_few = omega arith;
  reward_fits = omega arith;
  total_reward = refl;
  outputs_blob_size = refl;
  extra_valid = three_tags-IsTag;
  extra_key_first = three_tags-KeyFirst;
  extra_fresh = three_tags-Fresh;
  extra_small = omega arith;
  base_rct = refl;
}

coinbase-round_trip_example :
    coinbase_from_reader blank (coinbase_append_binary_flags [] miner_tx true ++ (9 ∷ []))
    ≡ ok (decoded miner_tx true, 9 ∷ [])
coinbase-round_trip_example =
    coinbase-round_trip blank miner_tx true (9 ∷ []) refl refl miner_tx-IsCoinbase
