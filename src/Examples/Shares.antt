-- ===== src/Examples/Shares.antt =====
-- Side data, and a reward that is split.
use p2pool_observer.Prelude.{
  ℕ, ◌+◌, ◌≡◌, refl, arith, some, List, [], ◌∷◌, ◌++◌, ltb, if◌then◌else◌, length, sum,
}
use p2pool_observer.Codec.{ok}
use p2pool_observer.Types.Uint128.{exact, value}
use p2pool_observer.SideChain.SideData.{
  SideData, ExtraBuffer, side_data_from_reader, side_data_append_binary, side_data_buffer_length,
}
use p2pool_observer.SideChain.SideData.RoundTrip.{IsSideData, stored, side_data-round_trip}
use p2pool_observer.SideChain.Share.{Share}
use p2pool_observer.SideChain.Reward.{split_reward}
use p2pool_observer.SideChain.Reward.Exact.{
  weight_sum, AllFit, Fair, exact_rewards, split_reward-exact, split_reward-Fair,
}
use p2pool_observer.Examples.{some_key, other_key}

abbrev no_extra : ExtraBuffer
no_extra = record {
  software_id = 0;
  software_version = 0;
  random_number = 0;
  side_chain_extra_nonce = 0;
}

abbrev pub blank_side_data : SideData
blank_side_data = record {
  spend_public_key = [];
  view_public_key = [];
  coinbase_private_key_seed = [];
  coinbase_private_key = [];
  parent = [];
  uncles = [];
  height = 0;
  difficulty = record { lo = 0; hi = 0 };
  cumulative_difficulty = record { lo = 0; hi = 0 };
  extra_buffer = no_extra;
}

abbrev pub share_side_data : SideData
share_side_data = record {
  spend_public_key = some_key;
  view_public_key = other_key;
  coinbase_private_key_seed = some_key;
  coinbase_private_key = other_key;
  parent = other_key;
  uncles = some_key ∷ [];
  height = 5000000;
  difficulty = record { lo = 120000; hi = 0 };
  cumulative_difficulty = record { lo = 77; hi = 3 };
  extra_buffer = record no_extra { software_version = 196608; random_number = 4000000000 };
}

pub share_side_data-IsSideData : IsSideData share_side_data
share_side_data-IsSideData = record {
  spend_length = refl;
  view_length = refl;
  seed_length = refl;
  key_length = refl;
  parent_length = refl;
  uncle_lengths = (refl, tt);
  uncle_count = omega arith;
  height_fits = omega arith;
  difficulty_fits = omega arith;
  cumulative_fits = omega arith;
  software_id_fits = omega arith;
  software_version_fits = omega arith;
  random_number_fits = omega arith;
  extra_nonce_fits = omega arith;
}

side_data-round_trip_example :
    (side_data_from_reader blank_side_data 2
        (side_data_append_binary [] share_side_data 2 ++ (4 ∷ []))
      ≡ ok (stored blank_side_data share_side_data 2, 4 ∷ []))
    × (length (side_data_append_binary [] share_side_data 2) + (if ltb 1 2 then 0 else 16)
        ≡ side_data_buffer_length share_side_data)
side_data-round_trip_example =
    side_data-round_trip blank_side_data share_side_data 2 (4 ∷ []) refl share_side_data-IsSideData

abbrev miner : ℕ → Share
miner n = record {
  address = record { spend = some_key; view = other_key };
  weight = record { lo = n; hi = 0 };
}

-- Weights 5 and 2, and a reward of 100.
abbrev miners : List Share
miners = miner 5 ∷ miner 2 ∷ []

miners-AllFit : AllFit miners
miners-AllFit = (omega arith, (omega arith, tt))

miners_weight : weight_sum miners ≡ 7
unfolding weight_sum value
miners_weight = refl

split_reward-exact_example :
    (split_reward exact 100 miners ≡ some (exact_rewards 100 (weight_sum miners) 0 miners))
    × (sum (exact_rewards 100 (weight_sum miners) 0 miners) ≡ 100)
split_reward-exact_example =
    split_reward-exact exact 100 miners miners-AllFit (omega arith) (omega (arith, miners_weight))
      (omega (arith, miners_weight)) (omega (arith, miners_weight))

split_reward-Fair_example :
    (rs : List ℕ) × (split_reward exact 100 miners ≡ some rs)
    × Fair 100 (weight_sum miners) miners rs
split_reward-Fair_example =
    split_reward-Fair exact 100 miners miners-AllFit (omega arith) (omega (arith, miners_weight))
      (omega (arith, miners_weight)) (omega (arith, miners_weight))
