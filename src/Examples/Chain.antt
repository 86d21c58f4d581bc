-- ===== src/Examples/Chain.antt =====
-- A share on its parent, with an uncle.
use p2pool_observer.Prelude.{
  ℕ, zero, suc, ◌<◌, ◌≡◌, ◌≢◌, refl, arith, true, none, some, Option, List, [], ◌∷◌, if◌then◌else◌,
  replicate,
}
use p2pool_observer.Types.Uint128.{Difficulty, exact, value, of_value}
use p2pool_observer.Types.Hash.{bytes_eq, zero_hash, compare_hash, word}
use p2pool_observer.Codec.{ok, le_value}
use p2pool_observer.Utils.NthElement.{then_result}
use p2pool_observer.Types.Difficulty.{add, mul64, same}
use p2pool_observer.SideChain.Reward.{given_total, split_loop, split_reward, total_weight}
use p2pool_observer.SideChain.Share.{Share, PackedAddress}
use p2pool_observer.SideChain.HardFork.{mainnet, p2pool_main_net_hard_forks}
use p2pool_observer.SideChain.Consensus.Bounds.{IsConsensus, verify-IsConsensus}
use p2pool_observer.SideChain.PoolBlock.{PoolBlock, contains_hash, transaction_output_type}
use p2pool_observer.SideChain.Outputs.{outputs_from, outputs_of, calculate_outputs, with_outputs}
use p2pool_observer.SideChain.Outputs.Verified.{calculate_outputs-verified}
use p2pool_observer.SideChain.Consensus.{
  Consensus, verify, calculate_id, append_field, network_string, is_mainnet, fill_hard_forks,
  default_hard_forks, side_template_id,
}
use p2pool_observer.SideChain.Verdict.{
  verified, fails, looping, NextDifficulty, difficulty_of, ascending, ascending_from, is_eq, is_lt,
}
use p2pool_observer.SideChain.Uncles.{
  get_parent, check_uncles, check_uncle, check_ancestor, walk_back, same_chain,
}
use p2pool_observer.SideChain.Verify.{
  verify_block, verify_on, verify_sum, mined_blocks, verify_difficulty, expected_seed, is_tip,
  outputs_match, verify_payout,
}
use p2pool_observer.SideChain.Verify.Accepts.{StandsOn, verify_block-StandsOn}
use p2pool_observer.SideChain.Verify.Pays.{Demanded, Pays, verify_block-Pays}
use p2pool_observer.SideChain.Verify.Ends.{verify_block-ends}
use p2pool_observer.Examples.{some_key, other_key}
use p2pool_observer.Examples.Blocks.{share}

abbrev pub default_consensus : Consensus
default_consensus = record {
  network_type = mainnet;
  pool_name = [];
  pool_password = [];
  target_block_time = 10;
  minimum_difficulty = 100000;
  chain_window_size = 2160;
  uncle_penalty = 20;
  hard_forks = [];
  id = some_key;
}

abbrev genesis_id : List ℕ
genesis_id = replicate 32 1

abbrev parent_id : List ℕ
parent_id = replicate 32 2

abbrev uncle_id : List ℕ
uncle_id = replicate 32 3

abbrev known : PoolBlock
known = record share { verified = true; cached_share_version = 1 }

abbrev genesis_share : PoolBlock
genesis_share = record known {
  side = record share.side {
    parent = zero_hash;
    uncles = [];
    height = 0;
    cumulative_difficulty = record { lo = 5; hi = 0 };
  };
}

abbrev first_share : PoolBlock
first_share = record known {
  side = record share.side {
    parent = genesis_id;
    uncles = [];
    height = 1;
    cumulative_difficulty = record { lo = 10; hi = 0 };
  };
}

abbrev blocks : ℕ → PoolBlock
blocks zero = genesis_share
blocks (suc n) = first_share

abbrev lookup : List ℕ → Option ℕ
lookup id =
    if bytes_eq id genesis_id
    then some 0
    else if bytes_eq id parent_id
    then some 1
    else if bytes_eq id uncle_id
    then some 2
    else none

abbrev one_hash : List ℕ → List ℕ
one_hash bytes = other_key

abbrev five : Difficulty
five = record { lo = 5; hi = 0 }

abbrev demanded : ℕ → NextDifficulty
demanded p = difficulty_of five

abbrev one_share : PoolBlock → List Share
one_share b = record { address = record { spend = some_key; view = other_key }; weight = five } ∷ []

abbrev same_key : PackedAddress → List ℕ → ℕ → List ℕ × ℕ
same_key address private_key index = (some_key, 200)

-- It pays the whole reward to the one share of the window, and its uncle has a difficulty of 120000.
abbrev second_share : PoolBlock
second_share = record share {
  cached_share_version = 1;
  main = record share.main {
    coinbase = record share.main.coinbase {
      outputs =
          record {
            index = 0;
            reward = 700;
            ephemeral_public_key = some_key;
            output_type = 3;
            view_tag = 200;
          }
          ∷ [];
      total_reward = 700;
    };
  };
  side = record share.side {
    parent = parent_id;
    uncles = uncle_id ∷ [];
    height = 2;
    difficulty = five;
    cumulative_difficulty = record { lo = 120015; hi = 0 };
  };
}

second_share-verified :
    verify_block one_hash exact default_consensus blocks lookup none five demanded one_share
      same_key second_share
    ≡ verified
unfolding verify_on ascending ascending_from verify_sum check_uncles check_uncle mined_blocks
    check_ancestor walk_back same_chain verify_difficulty expected_seed is_eq is_lt is_tip
    outputs_match verify_payout get_parent verify_block contains_hash side_template_id value
    of_value add mul64 same given_total split_loop split_reward total_weight bytes_eq compare_hash
    word le_value
second_share-verified = refl

verify_block-StandsOn_example : StandsOn one_hash exact default_consensus blocks lookup second_share
verify_block-StandsOn_example =
    verify_block-StandsOn one_hash exact default_consensus blocks lookup none five demanded
      one_share same_key second_share (omega arith) (omega arith) (omega arith) (omega arith)
      (omega arith) second_share-verified

verify_block-Pays_example :
    (p : ℕ) × (get_parent blocks lookup second_share ≡ some p)
    × Demanded one_hash exact default_consensus blocks lookup none five demanded one_share same_key
        p second_share
    × Pays one_hash exact default_consensus blocks lookup none five demanded one_share same_key
        second_share
verify_block-Pays_example =
    verify_block-Pays one_hash exact default_consensus blocks lookup none five demanded one_share
      same_key second_share (omega arith) (omega arith) (omega arith) second_share-verified

heights_fall :
    (p q : ℕ)
    → get_parent blocks lookup (blocks p) ≡ some q
    → (blocks q).side.height < (blocks p).side.height
unfolding get_parent bytes_eq
heights_fall zero q e = absurd (cc)
heights_fall (suc p) zero e = omega arith
heights_fall (suc p) (suc q) e = absurd (cc)

verify_block-ends_example :
    verify_block one_hash exact default_consensus blocks lookup none five demanded one_share
      same_key second_share
    ≢ fails looping
verify_block-ends_example =
    verify_block-ends blocks lookup heights_fall one_hash exact default_consensus none five demanded
      one_share same_key second_share

abbrev no_digits : ℕ → List ℕ
no_digits n = []

verify-IsConsensus_example :
    IsConsensus
      (record default_consensus { id = other_key; hard_forks = p2pool_main_net_hard_forks })
unfolding verify calculate_id append_field network_string bytes_eq is_mainnet fill_hard_forks
    default_hard_forks
verify-IsConsensus_example =
    verify-IsConsensus no_digits one_hash default_consensus
      (record default_consensus { id = other_key; hard_forks = p2pool_main_net_hard_forks }) refl

calculated :
    calculate_outputs same_key exact (λ b. ok (one_share b, 1)) second_share
    ≡ ok (some second_share.main.coinbase.outputs, 1)
unfolding calculate_outputs outputs_of outputs_from then_result split_reward split_loop total_weight
    given_total transaction_output_type value of_value add mul64
calculated = refl

calculate_outputs-verified_example :
    verify_payout one_hash exact default_consensus blocks lookup none five demanded one_share
      same_key
      (with_outputs second_share second_share.main.coinbase.outputs)
    ≡ verified
calculate_outputs-verified_example =
    calculate_outputs-verified same_key one_hash exact default_consensus blocks lookup none five
      demanded one_share (λ b. ok (one_share b, 1)) second_share (one_share second_share) 1
      second_share.main.coinbase.outputs 1 refl refl calculated
