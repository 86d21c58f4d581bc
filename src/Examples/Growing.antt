-- ===== src/Examples/Growing.antt =====
-- An empty chain, to which the genesis and the share on it are added.
use Prim.Native.Nat.{Ordering}
use p2pool_observer.Prelude.{
  ℕ, zero, suc, ◌+◌, ◌*◌, ◌/◌, ◌%◌, ◌^◌, ◌≤◌, ◌∙◌, ◌<◌, ◌≡◌, refl, ap, arith, inl, inr, ◌==◌,
  ==_iff, Bool-cases, if◌then◌else◌, true, false, Bool, none, some, Option, List, [], ◌∷◌,
  replicate, sum,
}
use p2pool_observer.Codec.{Result, ok, err, panic, stuck}
use p2pool_observer.Types.Uint128.{Difficulty, exact}
use p2pool_observer.Types.Hash.{zero_hash}
use p2pool_observer.SideChain.Share.{Share, PackedAddress}
use p2pool_observer.SideChain.PoolBlock.{PoolBlock}
use p2pool_observer.SideChain.Consensus.{Consensus, side_template_id}
use p2pool_observer.SideChain.State.Health.{Grown, Grown-side}
use p2pool_observer.SideChain.State.{ChainState, Rules}
use p2pool_observer.SideChain.Verdict.{Verdict, verified, fails, invalid, genesis_parameters}
use p2pool_observer.SideChain.VerifyLoop.{LoopState, verify_stack, verify_fuel, start}
use p2pool_observer.Utils.NthElement.{then_result}
use p2pool_observer.Types.Difficulty.{zero_difficulty}
use p2pool_observer.SideChain.External.{
  Outside, Outcome, added, has_deterministic_keys, add_pool_block_external,
}
use p2pool_observer.SideChain.External.Checked.{IsChecked, add_pool_block_external-IsChecked}
use p2pool_observer.SideChain.AddBlock.{AddError, add_pool_block, no_error}
use p2pool_observer.SideChain.AddBlock.Reachable.{IsFresh, Step, Reachable, Backed}
use p2pool_observer.SideChain.Chain.{chain_rules}
use p2pool_observer.SideChain.Chain.Backed.{chain-Backed, chain-Grown}
use p2pool_observer.Examples.{some_key, other_key}
use p2pool_observer.Examples.Blocks.{share}
use p2pool_observer.Examples.Chain.{default_consensus}

abbrev pub consensus : Consensus
consensus = record default_consensus { chain_window_size = 3 }

abbrev pub checksum : List ℕ → List ℕ
checksum bytes = replicate 32 (sum bytes % 256)

abbrev least : Difficulty
least = record { lo = 100000; hi = 0 }

-- The genesis with a template id in its miner transaction.
abbrev stamped : List ℕ → PoolBlock
stamped id = record share {
  cached_share_version = 1;
  main = record share.main {
    coinbase = record share.main.coinbase {
      outputs =
          record {
            index = 0;
            reward = 600000000000;
            ephemeral_public_key = some_key;
            output_type = 3;
            view_tag = 200;
          }
          ∷ [];
      total_reward = 600000000000;
      extra =
          record { tag = 1; has_var_int = false; var_int = 0; content = some_key }
          ∷ record { tag = 3; has_var_int = true; var_int = 33; content = id }
          ∷ [];
    };
    transactions = [];
    transaction_parent_indices = [];
  };
  side = record share.side {
    coinbase_private_key = other_key;
    parent = zero_hash;
    uncles = [];
    height = 0;
    difficulty = least;
    cumulative_difficulty = least;
  };
}

abbrev first_id : List ℕ
first_id = side_template_id checksum consensus (stamped zero_hash)

abbrev pub genesis : PoolBlock
genesis = stamped first_id

abbrev child : PoolBlock
child = record genesis {
  main = record genesis.main {
    coinbase = record genesis.main.coinbase {
      outputs =
          record {
            index = 0;
            reward = 700;
            ephemeral_public_key = some_key;
            output_type = 3;
            view_tag = 200;
          }
          ∷ [];
      total_reward = 700;
    };
  };
  side = record genesis.side {
    parent = first_id;
    height = 1;
    cumulative_difficulty = record { lo = 200000; hi = 0 };
  };
}

abbrev pub arriving : ℕ → PoolBlock
arriving zero = genesis
arriving (suc a) = child

abbrev pub empty : ChainState
empty = record {
  heap = arriving;
  blocks_by_template_id = [];
  blocks_by_height = [];
  height_keys_sorted = false;
  height_keys = [];
  chain_tip = none;
  sync_tip = none;
  current_difficulty = least;
  precalc_finished = false;
  watch_block_template_id = zero_hash;
  seen_blocks = [];
  calls = [];
}

abbrev pub high : ℕ → Difficulty
high height = record { lo = 300000000000; hi = 0 }

abbrev pub main_height : List ℕ → Option ℕ
main_height id = some 3000000

abbrev pub in_order : (Share → Share → Ordering) → List Share → List Share
in_order compare shares = shares

abbrev pub same_key : PackedAddress → List ℕ → ℕ → List ℕ × ℕ
same_key address private_key index = (some_key, 200)

abbrev pub rules : Rules
rules = chain_rules checksum exact consensus high main_height in_order same_key

abbrev one_block : Result (ChainState × AddError)
one_block = add_pool_block rules 1700000000 9 0 empty

abbrev state_of : Result (ChainState × AddError) → ChainState
state_of (ok r) = r.0
state_of r = empty

abbrev grown : ChainState
grown = state_of one_block

abbrev tip_of : Result (ChainState × AddError) → Option (Option ℕ × AddError)
tip_of (ok r) = some (r.0.chain_tip, r.1)
tip_of r = none

one_tip : tip_of one_block ≡ some (some 0, no_error)
unfolding p2pool_observer.Codec.uvarint_bytes p2pool_observer.Codec.uvarint
    p2pool_observer.Codec.uvarint_rest p2pool_observer.Codec.le_bytes
    p2pool_observer.Block.block_buffer_length p2pool_observer.Block.header_blob
    p2pool_observer.Block.append_compact p2pool_observer.Block.block_append_binary_flags
    p2pool_observer.Utils.NthElement.then_result p2pool_observer.Utils.NthElement.less_at
    p2pool_observer.Utils.NthElement.nth_loop p2pool_observer.Utils.NthElement.nth_element
    p2pool_observer.Utils.Number.uvarint64_size p2pool_observer.Transaction.Output.output_loop
    p2pool_observer.Transaction.Output.outputs_buffer_length
    p2pool_observer.Transaction.Output.append_output
    p2pool_observer.Transaction.Output.append_outputs
    p2pool_observer.Transaction.Output.outputs_append_binary
    p2pool_observer.Transaction.Coinbase.or_nil
    p2pool_observer.Transaction.Coinbase.append_coinbase_head
    p2pool_observer.Transaction.Coinbase.append_coinbase_outputs
    p2pool_observer.Transaction.Coinbase.coinbase_append_binary_flags
    p2pool_observer.Transaction.Coinbase.coinbase_hashing_blob
    p2pool_observer.Transaction.Extra.padding_loop p2pool_observer.Transaction.Extra.extra_loop
    p2pool_observer.Transaction.Extra.append_tag p2pool_observer.Transaction.Extra.append_tags
    p2pool_observer.Transaction.Extra.tag_buffer_length
    p2pool_observer.Transaction.Extra.tags_buffer_length
    p2pool_observer.Transaction.Extra.hashed_content
    p2pool_observer.Transaction.Extra.tag_hashing_blob
    p2pool_observer.Transaction.Extra.tags_hashing_blob p2pool_observer.Types.Uint128.value
    p2pool_observer.Types.Uint128.of_value p2pool_observer.Types.Difficulty.same
    p2pool_observer.Types.Difficulty.cmp p2pool_observer.Types.Difficulty.add
    p2pool_observer.Types.Difficulty.from64 p2pool_observer.Types.Hash.bytes_eq
    p2pool_observer.Types.Hash.word p2pool_observer.Prelude.Order.lt_wf
    p2pool_observer.SideChain.Tip.broadcast_tip p2pool_observer.SideChain.Tip.store_tip
    p2pool_observer.SideChain.Tip.with_tip p2pool_observer.SideChain.Tip.move_tip
    p2pool_observer.SideChain.Tip.choose_tip p2pool_observer.SideChain.Tip.update_chain_tip
    p2pool_observer.SideChain.Longer.block_of p2pool_observer.SideChain.Chain.chain_difficulty
    p2pool_observer.SideChain.Chain.chain_shares p2pool_observer.SideChain.Chain.chain_is_longer
    p2pool_observer.SideChain.Chain.chain_verify_block p2pool_observer.SideChain.Chain.chain_rules
    p2pool_observer.SideChain.AddBlock.add_error p2pool_observer.SideChain.AddBlock.follows_last
    p2pool_observer.SideChain.AddBlock.add_at p2pool_observer.SideChain.AddBlock.add_at_height
    p2pool_observer.SideChain.AddBlock.found_watched
    p2pool_observer.SideChain.AddBlock.store_sync_tip
    p2pool_observer.SideChain.AddBlock.verify_added p2pool_observer.SideChain.AddBlock.add_encoded
    p2pool_observer.SideChain.AddBlock.add_pool_block p2pool_observer.SideChain.VerifyLoop.mark
    p2pool_observer.SideChain.VerifyLoop.cache_with
    p2pool_observer.SideChain.VerifyLoop.iteration_cache_of
    p2pool_observer.SideChain.VerifyLoop.fill_cache p2pool_observer.SideChain.VerifyLoop.block_at
    p2pool_observer.SideChain.VerifyLoop.fill_transaction_parent_indices
    p2pool_observer.SideChain.VerifyLoop.settle p2pool_observer.SideChain.VerifyLoop.announce
    p2pool_observer.SideChain.VerifyLoop.reversed_onto
    p2pool_observer.SideChain.VerifyLoop.push_above p2pool_observer.SideChain.VerifyLoop.saved_error
    p2pool_observer.SideChain.VerifyLoop.higher_of p2pool_observer.SideChain.VerifyLoop.entries
    p2pool_observer.SideChain.VerifyLoop.verify_fuel p2pool_observer.SideChain.VerifyLoop.start
    p2pool_observer.SideChain.VerifyLoop.accept p2pool_observer.SideChain.VerifyLoop.judge
    p2pool_observer.SideChain.VerifyLoop.verify_stack
    p2pool_observer.SideChain.VerifyLoop.update_highest
    p2pool_observer.SideChain.VerifyLoop.verify_loop p2pool_observer.SideChain.Depths.update_depth
    p2pool_observer.SideChain.Depths.and_then p2pool_observer.SideChain.Depths.depth_above
    p2pool_observer.SideChain.Depths.depth_from p2pool_observer.SideChain.Depths.own_depth
    p2pool_observer.SideChain.Depths.update_child p2pool_observer.SideChain.Depths.update_children
    p2pool_observer.SideChain.Depths.update_above p2pool_observer.SideChain.Depths.update_parent
    p2pool_observer.SideChain.Depths.update_uncles p2pool_observer.SideChain.Depths.update_near
    p2pool_observer.SideChain.Depths.verify_deep p2pool_observer.SideChain.Depths.depths_loop
    p2pool_observer.SideChain.Depths.update_depths
    p2pool_observer.SideChain.PoolBlock.pool_block_buffer_length
    p2pool_observer.SideChain.PoolBlock.pool_block_append_binary_flags
    p2pool_observer.SideChain.Consensus.side_template_id
    p2pool_observer.SideChain.Prune.prune_distance p2pool_observer.SideChain.Prune.prune_delay
    p2pool_observer.SideChain.Prune.is_known p2pool_observer.SideChain.Prune.finish_pruning
    p2pool_observer.SideChain.Prune.prune_old_blocks p2pool_observer.SideChain.Longer.parent_of
    p2pool_observer.SideChain.Longer.is_longer_chain
    p2pool_observer.SideChain.NextDifficulty.extremes
    p2pool_observer.SideChain.NextDifficulty.element
    p2pool_observer.SideChain.NextDifficulty.difficulty_over
    p2pool_observer.SideChain.NextDifficulty.delta_of
    p2pool_observer.SideChain.NextDifficulty.next_difficulty
    p2pool_observer.SideChain.NextDifficulty.add_uncle_data
    p2pool_observer.SideChain.NextDifficulty.data_loop
    p2pool_observer.SideChain.NextDifficulty.get_difficulty_for_next_block
    p2pool_observer.SideChain.Verdict.is_eq p2pool_observer.SideChain.Verdict.is_lt
    p2pool_observer.SideChain.SideData.side_data_append_binary p2pool_observer.SideChain.State.write
    p2pool_observer.SideChain.State.write_block p2pool_observer.SideChain.State.find_id
    p2pool_observer.SideChain.State.put_id p2pool_observer.SideChain.State.find_height
    p2pool_observer.SideChain.State.put_height p2pool_observer.SideChain.State.get_by_template_id
    p2pool_observer.SideChain.State.list_of p2pool_observer.SideChain.State.get_by_height
    p2pool_observer.SideChain.State.parent_of p2pool_observer.SideChain.State.found_until_missing
    p2pool_observer.SideChain.State.iterated_uncles p2pool_observer.SideChain.State.same_address
    p2pool_observer.SideChain.State.broadcast_once p2pool_observer.SideChain.Verify.verify_genesis
    p2pool_observer.SideChain.Verify.verify_block p2pool_observer.SideChain.Verify.Pays.Keyed
    p2pool_observer.SideChain.AddBlock.insert_block p2pool_observer.SideChain.VerifyLoop.verify_one
    p2pool_observer.SideChain.Window.iterator_uncles p2pool_observer.SideChain.Window.above
    p2pool_observer.SideChain.Prune.prune_below p2pool_observer.Codec.Hashes.append_hashes
    p2pool_observer.Block.block_hashing_blob
one_tip = refl

ended :
    (r : Result (ChainState × AddError)) (e : AddError) (t : ℕ)
    → tip_of r ≡ some (some t, e)
    → (r ≡ ok (state_of r, e)) × ((state_of r).chain_tip ≡ some t)
ended (ok (s, e')) e t h =
    let reached : Option ℕ × AddError = (s.chain_tip, e') in
    let wanted : Option ℕ × AddError = (some t, e) in
    let same : reached ≡ wanted = cc in
    let same_error : e' ≡ e = ap (λ k. k.1) same in
    (ap (λ k. ok (s, k)) same_error, ap (λ k. k.0) same)
ended (err e') e t h = absurd (cc)
ended panic e t h = absurd (cc)
ended stuck e t h = absurd (cc)

one_block-ends : (one_block ≡ ok (grown, no_error)) × (grown.chain_tip ≡ some 0)
one_block-ends = ended one_block no_error 0 one_tip

empty-IsFresh : IsFresh empty
empty-IsFresh = record {
  unverified = λ a. elim a as (λ x. (arriving x).verified ≡ false) [ zero ↦ refl | suc n ↦ refl ];
  uncached =
      λ a. elim a as (λ x. (arriving x).iteration_cache ≡ none) [ zero ↦ refl | suc n ↦ refl ];
  no_blocks = refl;
  no_tip = refl;
}

one-Step : Step rules empty grown
one-Step = Step.adds 1700000000 9 0 no_error one_block-ends.0

-- Heights do not change.
low : (x : ℕ) → (grown.heap x).side.height < 2 ^ 64
low x =
    let same = Grown-side (
      chain-Grown checksum exact consensus high main_height in_order same_key empty grown one-Step
        x) in
    rw same (elim x as (λ y. (arriving y).side.height < 2 ^ 64) [
      | zero ↦ omega arith
      | suc n ↦ omega arith
    ])

chain-Backed_example : Backed rules grown.heap (grown.heap 0)
chain-Backed_example =
    chain-Backed checksum exact consensus high main_height in_order same_key grown 0
      (Reachable.later (Reachable.fresh empty-IsFresh) one-Step) low one_block-ends.1

chain-Grown_example : Grown (empty.heap 0) (grown.heap 0)
chain-Grown_example =
    chain-Grown checksum exact consensus high main_height in_order same_key empty grown one-Step 0

-- A server whose seeds are all known, and a hash that is one as a number.
abbrev outside : Outside
outside = record {
  keccak = checksum;
  uint256_div = λ a b. a / b;
  lib = exact;
  randomx = λ seed blob. some (1 ∷ replicate 31 0);
  seed_by_height = λ height. some_key;
  difficulty_by_height = λ height. zero_difficulty;
  main_height_by_hash = λ id. none;
  deterministic_key = λ seed id. (some_key, other_key);
}

abbrev unprocessed : ℕ → ChainState → Result (ChainState × Option (List (List ℕ)))
unprocessed a s = ok (s, none)

one_external :
    add_pool_block_external rules outside 1700000000 9 unprocessed 0 empty
    ≡ then_result one_block (λ r. ok (r.0, added [] r.1))
unfolding add_pool_block_external p2pool_observer.SideChain.External.after_preprocess
    p2pool_observer.SideChain.External.check_processed p2pool_observer.SideChain.External.check_low
    p2pool_observer.SideChain.External.check_proof p2pool_observer.SideChain.External.add_checked
    p2pool_observer.SideChain.External.too_low p2pool_observer.SideChain.External.all_of_type
    p2pool_observer.SideChain.External.wrong_height p2pool_observer.SideChain.External.pow_hash
    p2pool_observer.SideChain.External.is_higher_main_chain has_deterministic_keys then_result
    p2pool_observer.SideChain.PoolBlock.private_key_seed
    p2pool_observer.SideChain.PoolBlock.coinbase_public_key
    p2pool_observer.SideChain.PoolBlock.coinbase_template_id
    p2pool_observer.SideChain.PoolBlock.extra_data
    p2pool_observer.SideChain.PoolBlock.transaction_output_type
    p2pool_observer.SideChain.Prune.is_known p2pool_observer.SideChain.State.get_by_template_id
    p2pool_observer.SideChain.State.find_id p2pool_observer.SideChain.State.parent_of
    p2pool_observer.SideChain.Missing.missing_for p2pool_observer.SideChain.Missing.missing_of
    p2pool_observer.SideChain.Missing.is_missing p2pool_observer.SideChain.Chain.chain_rules
    p2pool_observer.SideChain.Verdict.is_lt p2pool_observer.SideChain.Consensus.side_template_id
    p2pool_observer.SideChain.SideData.side_data_append_binary
    p2pool_observer.SideChain.SideData.append_extra_buffer
    p2pool_observer.Types.ProofOfWork.check_pow
    p2pool_observer.Types.ProofOfWork.difficulty_from_pow p2pool_observer.Types.ProofOfWork.at_least
    p2pool_observer.Types.Difficulty.cmp p2pool_observer.Types.Difficulty.same
    p2pool_observer.Types.Hash.bytes_eq p2pool_observer.Types.Hash.hash_from_bytes
    p2pool_observer.Types.Uint128.of_value p2pool_observer.Types.Uint128.value
    p2pool_observer.Transaction.Extra.get_tag p2pool_observer.Block.Merkle.pow_hash_with_error
    p2pool_observer.Block.Merkle.hashing_blob p2pool_observer.Block.Merkle.root_hash
    p2pool_observer.Block.Merkle.leaf_hash p2pool_observer.Block.Merkle.coinbase_id
    p2pool_observer.Block.block_hashing_blob p2pool_observer.Block.header_blob
    p2pool_observer.Codec.Hashes.append_hashes p2pool_observer.Codec.le_value
    p2pool_observer.Codec.uvarint p2pool_observer.Codec.uvarint_bytes
    p2pool_observer.Codec.uvarint_rest p2pool_observer.Codec.le_bytes
    p2pool_observer.Transaction.Coinbase.coinbase_hashing_blob
    p2pool_observer.Transaction.Coinbase.append_coinbase_head
    p2pool_observer.Transaction.Coinbase.append_coinbase_outputs
    p2pool_observer.Transaction.Extra.tags_hashing_blob
    p2pool_observer.Transaction.Extra.tags_buffer_length
    p2pool_observer.Transaction.Extra.tag_hashing_blob
    p2pool_observer.SideChain.AddBlock.add_encoded p2pool_observer.Transaction.Coinbase.or_nil
    p2pool_observer.Transaction.Output.outputs_append_binary
    p2pool_observer.Block.block_append_binary_flags
    p2pool_observer.Transaction.Output.append_outputs
    p2pool_observer.Transaction.Output.append_output p2pool_observer.Transaction.Extra.append_tags
    p2pool_observer.Transaction.Extra.tag_buffer_length p2pool_observer.Transaction.Extra.append_tag
    p2pool_observer.SideChain.Depths.update_depths p2pool_observer.Transaction.Extra.hashed_content
    p2pool_observer.SideChain.AddBlock.add_pool_block p2pool_observer.Utils.Number.uvarint64_size
one_external = refl

add_pool_block_external-IsChecked_example :
    (600000000000 ≤ 600000000000)
    × (15 ≤ 16 → has_deterministic_keys outside genesis ≡ true)
    × ((t : ChainState) × (unprocessed 0 empty ≡ ok (t, none))
        × IsChecked rules outside t (t.heap 0))
unfolding then_result
add_pool_block_external-IsChecked_example =
    add_pool_block_external-IsChecked rules outside 1700000000 9 unprocessed 0 empty grown []
      no_error (one_external ∙ rw (one_block-ends.0, then_result) refl)
