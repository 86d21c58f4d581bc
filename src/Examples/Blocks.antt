-- ===== src/Examples/Blocks.antt =====
-- A share, and the receiver that decodes it.
use p2pool_observer.Prelude.{
  ℕ, ◌^◌, ◌≡◌, refl, arith, true, false, none, some, List, [], ◌∷◌, ◌++◌, ltb, if◌then◌else◌,
  length,
}
use p2pool_observer.Codec.{ok, err, buffer_too_large}
use p2pool_observer.Types.Uint128.{exact}
use p2pool_observer.Types.Hash.{bytes_eq, hash_from_bytes}
use p2pool_observer.Transaction.Extra.{get_tag}
use p2pool_observer.Block.{Block, block_append_binary_flags, block_from_reader_flags}
use p2pool_observer.Block.RoundTrip.{IsBlock, decoded_block, block-round_trip}
use p2pool_observer.Block.Emission.{
  emitted_reward, scheduled_reward, effective_median, emitted_reward-exact,
}
use p2pool_observer.Mempool.BlockReward.{exact_reward}
use p2pool_observer.SideChain.HardFork.{
  mainnet, network_hard_fork, major_version, version_at_height, version_at_time,
  network_major_version, p2pool_share_version, p2pool_main_net_hard_forks,
}
use p2pool_observer.SideChain.PoolBlock.{
  PoolBlock, extra_data, coinbase_template_id, is_parent_of, fill_transactions,
  pool_block_max_template_size, pool_block_append_binary_flags, pool_block_from_reader,
  fill_private_keys,
}
use p2pool_observer.SideChain.PoolBlock.RoundTrip.{decoded_share, pool_block-round_trip}
use p2pool_observer.SideChain.PoolBlock.Filling.{compacted, fill_transactions-compacted}
use p2pool_observer.Examples.{some_key, other_key}
use p2pool_observer.Examples.Transactions.{blank, miner_tx, miner_tx-IsCoinbase}
use p2pool_observer.Examples.Shares.{blank_side_data, share_side_data, share_side_data-IsSideData}

abbrev blank_block : Block
blank_block = record {
  major_version = 0;
  minor_version = 0;
  nonce = 0;
  timestamp = 0;
  previous_id = [];
  coinbase = blank;
  transactions = [];
  transaction_parent_indices = [];
}

-- The second transaction is the parent's first.
abbrev main_block : Block
main_block = record {
  major_version = 16;
  minor_version = 16;
  nonce = 77;
  timestamp = 1700000000;
  previous_id = some_key;
  coinbase = miner_tx;
  transactions = other_key ∷ some_key ∷ [];
  transaction_parent_indices = 0 ∷ 1 ∷ [];
}

main_block-IsBlock : IsBlock main_block
main_block-IsBlock = record {
  major_supported = omega arith;
  minor_above = omega arith;
  timestamp_fits = omega arith;
  previous_id_length = refl;
  nonce_fits = omega arith;
  coinbase_valid = miner_tx-IsCoinbase;
  hash_lengths = (refl, (refl, tt));
  hashes_few = omega arith;
  indices_fit = (omega arith, (omega arith, tt));
}

block-round_trip_example :
    (buf : List ℕ) × (block_append_binary_flags [] main_block false true ≡ ok buf)
    × (block_from_reader_flags blank_block true (buf ++ (4 ∷ []))
        ≡ ok (decoded_block blank_block main_block false true, 4 ∷ []))
block-round_trip_example =
    block-round_trip blank_block main_block false true (4 ∷ []) refl refl main_block-IsBlock

abbrev blank_share : PoolBlock
blank_share = record {
  main = blank_block;
  side = blank_side_data;
  depth = 0;
  verified = false;
  invalid = false;
  want_broadcast = false;
  broadcasted = false;
  local_timestamp = 0;
  cached_share_version = 0;
  iteration_cache = none;
}

abbrev pub share : PoolBlock
share = record blank_share { main = main_block; side = share_side_data; cached_share_version = 2 }

abbrev parent_share : PoolBlock
parent_share = record share { main = record main_block { transactions = some_key ∷ [] } }

abbrev no_key : List ℕ → List ℕ → List ℕ
no_key seed id = seed

pool_block-round_trip_example :
    (buf : List ℕ) × (pool_block_append_binary_flags [] share false true
      ≡ (if ltb pool_block_max_template_size (length buf) then err buffer_too_large else ok buf))
    × (pool_block_from_reader no_key mainnet p2pool_main_net_hard_forks true blank_share
          (buf ++ (4 ∷ []))
        ≡ ok (fill_private_keys no_key (decoded_share blank_share share false true), 4 ∷ []))
unfolding get_tag network_major_version p2pool_share_version network_hard_fork major_version
    version_at_height version_at_time
pool_block-round_trip_example =
    pool_block-round_trip no_key mainnet p2pool_main_net_hard_forks blank_share share false true
      (record { tag = 3; has_var_int = true; var_int = 300; content = other_key }) (4 ∷ []) refl
      refl refl main_block-IsBlock share_side_data-IsSideData refl refl refl

fill_transactions-compacted_example :
    fill_transactions (compacted share (some_key ∷ [])) (some parent_share)
    ≡ ok (other_key ∷ some_key ∷ [])
unfolding is_parent_of bytes_eq hash_from_bytes coinbase_template_id extra_data get_tag
fill_transactions-compacted_example = fill_transactions-compacted share parent_share refl

emitted_reward-exact_example :
    emitted_reward exact 300000 400000 (10 ^ 18) 16
    ≡ ok (exact_reward (scheduled_reward (10 ^ 18) 16) (effective_median 300000 16) 0 400000)
emitted_reward-exact_example = emitted_reward-exact exact 300000 400000 (10 ^ 18) 16 (omega arith)
