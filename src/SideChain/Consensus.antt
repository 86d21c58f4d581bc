-- ===== src/SideChain/Consensus.antt =====
-- p2pool/sidechain/consensus.go: the parameters of a side chain, and the identifiers that depend on them.
pub mod Bounds
use p2pool_observer.Prelude.{
  ℕ, ◌+◌, ◌*◌, ◌^◌, ◌<◌, ◌≤◌, ◌≡◌, refl, arith, Bool, true, false, not, ◌&&◌, ◌||◌, Option, none,
  some, List, [], ◌∷◌, ◌++◌, ltb, ◌==◌, if◌then◌else◌, length, Bool-cases, inl, inr,
}
use p2pool_observer.Codec.{Result, ok, panic}
use p2pool_observer.Types.Hash.{bytes_eq, zero_hash}
use p2pool_observer.Block.{block_hashing_blob}
use p2pool_observer.SideChain.SideData.{side_data_append_binary, share_version_v1}
use p2pool_observer.SideChain.HardFork.{
  HardFork, NetworkType, invalid, mainnet, testnet, stagenet, p2pool_main_net_hard_forks,
  p2pool_test_net_hard_forks, p2pool_stage_net_hard_forks,
}
use p2pool_observer.SideChain.PoolBlock.{PoolBlock}

abbrev pub uncle_block_depth : ℕ
uncle_block_depth = 3

abbrev pub block_time : ℕ
block_time = 60 * 2

abbrev pub smallest_minimum_difficulty : ℕ
smallest_minimum_difficulty = 100000

abbrev pub largest_minimum_difficulty : ℕ
largest_minimum_difficulty = 1000000000

-- Consensus, but for its hasher; texts are their bytes.
pub record Consensus : Type 0 where
  pub network_type : NetworkType
  pub pool_name : List ℕ
  pub pool_password : List ℕ
  pub target_block_time : ℕ
  pub minimum_difficulty : ℕ
  pub chain_window_size : ℕ
  pub uncle_penalty : ℕ
  pub hard_forks : List HardFork
  pub id : List ℕ

-- NetworkType.String
unfoldable pub network_string : NetworkType → List ℕ
network_string invalid = 105 ∷ 110 ∷ 118 ∷ 97 ∷ 108 ∷ 105 ∷ 100 ∷ []
network_string mainnet = 109 ∷ 97 ∷ 105 ∷ 110 ∷ 110 ∷ 101 ∷ 116 ∷ []
network_string testnet = 116 ∷ 101 ∷ 115 ∷ 116 ∷ 110 ∷ 101 ∷ 116 ∷ []
network_string stagenet = 115 ∷ 116 ∷ 97 ∷ 103 ∷ 101 ∷ 110 ∷ 101 ∷ 116 ∷ []

-- `default`, and the pool name of ConsensusDefault, `mainnet test 2`.
abbrev pub default_name : List ℕ
default_name = 100 ∷ 101 ∷ 102 ∷ 97 ∷ 117 ∷ 108 ∷ 116 ∷ []

abbrev pub main_name : List ℕ
main_name = 109 ∷ 97 ∷ 105 ∷ 110 ∷ 110 ∷ 101 ∷ 116 ∷ 32 ∷ 116 ∷ 101 ∷ 115 ∷ 116 ∷ 32 ∷ 50 ∷ []

unfoldable pub is_mainnet : NetworkType → Bool
is_mainnet invalid = false
is_mainnet mainnet = true
is_mainnet testnet = false
is_mainnet stagenet = false

-- The fork list of a network in verify; `none` is its panic.
unfoldable pub default_hard_forks : NetworkType → Option (List HardFork)
default_hard_forks invalid = none
default_hard_forks mainnet = some p2pool_main_net_hard_forks
default_hard_forks testnet = some p2pool_test_net_hard_forks
default_hard_forks stagenet = some p2pool_stage_net_hard_forks

-- `format_uint` is strconv.FormatUint in base 10, `consensus_hash` is randomx.ConsensusHash.
module _ (format_uint : ℕ → List ℕ) (consensus_hash : List ℕ → List ℕ) where
  unfoldable pub append_field : List ℕ → List ℕ → List ℕ
  append_field buf field = (buf ++ field) ++ (0 ∷ [])

  -- Consensus.CalculateId
  unfoldable pub calculate_id : Consensus → List ℕ
  calculate_id c =
      let named =
        append_field (append_field (network_string c.network_type ++ (0 ∷ [])) c.pool_name)
          c.pool_password in
      let timed = append_field named (format_uint c.target_block_time) in
      let bounded = append_field timed (format_uint c.minimum_difficulty) in
      let sized = append_field bounded (format_uint c.chain_window_size) in
      consensus_hash (append_field sized (format_uint c.uncle_penalty))

  -- The last part of verify: the forks of the network where none are given.
  unfoldable pub fill_hard_forks : Consensus → Result (Consensus × Bool)
  fill_hard_forks c =
      if length c.hard_forks == 0
      then elim (default_hard_forks c.network_type) [
        | none ↦ panic
        | some forks ↦ ok (record c { hard_forks = forks }, true)
      ]
      else ok (c, true)

  -- Consensus.verify: the parameters afterwards, and the return value.
  unfoldable pub verify : Consensus → Result (Consensus × Bool)
  verify given =
      let c =
        if bytes_eq given.pool_name default_name
        then record given { pool_name = main_name }
        else given in
      let identified = record c { id = calculate_id c } in
      if ltb 128 (length c.pool_name)
      then ok (c, false)
      else if ltb 128 (length c.pool_password)
      then ok (c, false)
      else if ltb c.target_block_time 1 || ltb block_time c.target_block_time
      then ok (c, false)
      else if (is_mainnet c.network_type && ltb c.minimum_difficulty smallest_minimum_difficulty)
          || ltb largest_minimum_difficulty c.minimum_difficulty
      then ok (c, false)
      else if ltb c.chain_window_size 60 || ltb 2160 c.chain_window_size
      then ok (c, false)
      else if ltb c.uncle_penalty 1 || ltb 99 c.uncle_penalty
      then ok (c, false)
      else if bytes_eq identified.id zero_hash
      then ok (identified, false)
      else fill_hard_forks identified

-- `keccak` is Keccak-256 of all that was written.
module _ (keccak : List ℕ → List ℕ) where
  -- Consensus.CalculateSideTemplateId, which PoolBlock.SideTemplateId keeps.
  unfoldable pub side_template_id : Consensus → PoolBlock → List ℕ
  side_template_id c share = keccak (
      block_hashing_blob [] share.main true
      ++ (side_data_append_binary [] share.side share.cached_share_version ++ c.id))

  -- PoolBlock.CalculateTransactionPrivateKeySeed, with the domain `tx_key_seed` and a zero.
  unfoldable pub calculate_transaction_private_key_seed : PoolBlock → List ℕ
  calculate_transaction_private_key_seed b =
      let domain = 116 ∷ 120 ∷ 95 ∷ 107 ∷ 101 ∷ 121 ∷ 95 ∷ 115 ∷ 101 ∷ 101 ∷ 100 ∷ 0 ∷ [] in
      if ltb share_version_v1 b.cached_share_version
      then keccak (
          domain
          ++ (block_hashing_blob [] b.main false
              ++ side_data_append_binary [] b.side b.cached_share_version))
      else b.side.spend_public_key
