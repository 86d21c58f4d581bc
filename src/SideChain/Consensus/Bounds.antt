-- ===== src/SideChain/Consensus/Bounds.antt =====
-- The parameters that Consensus.verify accepts.
use p2pool_observer.Prelude.{
  ℕ, ◌<◌, ◌≤◌, ◌≡◌, ◌≢◌, refl, arith, Bool, true, false, ◌&&◌, ◌||◌, ◌⊎◌, some, List, [], ◌∷◌, ltb,
  ◌==◌, if◌then◌else◌, length, Bool-cases, Option-cases, inl, inr,
}
use p2pool_observer.Codec.{Result, ok}
use p2pool_observer.Types.Hash.{bytes_eq, zero_hash}
use p2pool_observer.Types.Hash.Order.{bytes_eq_refl}
use p2pool_observer.SideChain.HardFork.{HardFork, NetworkType, invalid, mainnet, testnet, stagenet}
use p2pool_observer.SideChain.Consensus.{
  Consensus, default_name, main_name, default_hard_forks, is_mainnet, fill_hard_forks, calculate_id,
  verify,
}

-- Parameters that a side chain may have.
pub record IsConsensus (c : Consensus) : Type 0 where
  pub name_length : length c.pool_name ≤ 128
  pub password_length : length c.pool_password ≤ 128
  pub block_time_from : 1 ≤ c.target_block_time
  pub block_time_to : c.target_block_time ≤ 120
  pub difficulty_from : (is_mainnet c.network_type ≡ false) ⊎ (100000 ≤ c.minimum_difficulty)
  pub difficulty_to : c.minimum_difficulty ≤ 1000000000
  pub window_from : 60 ≤ c.chain_window_size
  pub window_to : c.chain_window_size ≤ 2160
  pub penalty_from : 1 ≤ c.uncle_penalty
  pub penalty_to : c.uncle_penalty ≤ 99
  pub some_forks : 0 < length c.hard_forks
  pub id_not_zero : c.id ≢ zero_hash

-- A failed test rejects.
tests :
    (t : Bool) (c c' : Consensus) (r : Result (Consensus × Bool))
    → (if t then ok (c, false) else r) ≡ ok (c', true)
    → (t ≡ false) × (r ≡ ok (c', true))
tests true c c' r e = absurd (cc)
tests false c c' r e = (refl, e)

default_hard_forks-some :
    (n : NetworkType) (forks : List HardFork) → default_hard_forks n ≡ some forks → 0 < length forks
unfolding default_hard_forks
default_hard_forks-some invalid forks e = absurd (cc)
default_hard_forks-some mainnet [] e = absurd (cc)
default_hard_forks-some mainnet (f ∷ fs) e = omega arith
default_hard_forks-some testnet [] e = absurd (cc)
default_hard_forks-some testnet (f ∷ fs) e = omega arith
default_hard_forks-some stagenet [] e = absurd (cc)
default_hard_forks-some stagenet (f ∷ fs) e = omega arith

module _ (format_uint : ℕ → List ℕ) (consensus_hash : List ℕ → List ℕ) where
  -- Filling in the forks changes nothing else.
  fill_hard_forks-some :
      (c c' : Consensus)
      → fill_hard_forks format_uint consensus_hash c ≡ ok (c', true)
      → (forks : List HardFork) × (c' ≡ record c { hard_forks = forks }) × (0 < length forks)
  unfolding fill_hard_forks
  fill_hard_forks-some c c' e = elim (Bool-cases (length c.hard_forks == 0)) [
    | inr given ↦
        let same : ok (c, true) ≡ ok (c', true) = rw (given, fill_hard_forks) at e in
        (c.hard_forks, cc, ground (arith, given))
    | inl missing ↦ elim (Option-cases (default_hard_forks c.network_type)) [
      | inl unknown ↦ absurd (let e' = rw (missing, fill_hard_forks, unknown) at e in cc)
      | inr (forks, known) ↦
          let same : ok (record c { hard_forks = forks }, true) ≡ ok (c', true) =
            rw (missing, fill_hard_forks, known) at e in
          (forks, cc, default_hard_forks-some c.network_type forks known)
    ]
  ]

  -- The parameters that verify accepts are within the bounds that the side chain relies on: a window of
  -- 60 to 2160 blocks, an uncle penalty of 1 to 99 percent, a block time of 1 to 120 seconds, a
  -- difficulty of at most 10 ^ 9 and on the main net at least 10 ^ 5, names of at most 128 bytes, an
  -- identifier that is not zero, and at least one fork.
  pub verify-IsConsensus :
      (given c' : Consensus)
      → verify format_uint consensus_hash given ≡ ok (c', true)
      → IsConsensus c'
  unfolding verify
  verify-IsConsensus given c' e = named (Bool-cases (bytes_eq given.pool_name default_name))
    where
      checked :
          (c : Consensus)
          → (if ltb 128 (length c.pool_name)
              then ok (c, false)
              else if ltb 128 (length c.pool_password)
              then ok (c, false)
              else if ltb c.target_block_time 1 || ltb 120 c.target_block_time
              then ok (c, false)
              else if (is_mainnet c.network_type && ltb c.minimum_difficulty 100000)
                  || ltb 1000000000 c.minimum_difficulty
              then ok (c, false)
              else if ltb c.chain_window_size 60 || ltb 2160 c.chain_window_size
              then ok (c, false)
              else if ltb c.uncle_penalty 1 || ltb 99 c.uncle_penalty
              then ok (c, false)
              else if bytes_eq (calculate_id format_uint consensus_hash c) zero_hash
              then ok (record c { id = calculate_id format_uint consensus_hash c }, false)
              else fill_hard_forks format_uint consensus_hash
                  (record c { id = calculate_id format_uint consensus_hash c }))
            ≡ ok (c', true)
          → IsConsensus c'
      checked c h =
          let (name, h1) = tests (ltb 128 (length c.pool_name)) c c' _ h in
          let (password, h2) = tests (ltb 128 (length c.pool_password)) c c' _ h1 in
          let (time, h3) =
            tests (ltb c.target_block_time 1 || ltb 120 c.target_block_time) c c' _ h2 in
          let (difficulty, h4) =
            tests
              ((is_mainnet c.network_type && ltb c.minimum_difficulty 100000)
                || ltb 1000000000 c.minimum_difficulty)
              c c' _ h3 in
          let (window, h5) =
            tests (ltb c.chain_window_size 60 || ltb 2160 c.chain_window_size) c c' _ h4 in
          let (penalty, h6) = tests (ltb c.uncle_penalty 1 || ltb 99 c.uncle_penalty) c c' _ h5 in
          let id = calculate_id format_uint consensus_hash c in
          let (identified, h7) = tests (bytes_eq id zero_hash) (record c { id = id }) c' _ h6 in
          let (forks, same, some_forks) = fill_hard_forks-some (record c { id = id }) c' h7 in
          rw same (record {
            name_length = ground (arith, name);
            password_length = ground (arith, password);
            block_time_from = ground (arith, time);
            block_time_to = ground (arith, time);
            difficulty_from = lowest c difficulty;
            difficulty_to = ground (arith, difficulty);
            window_from = ground (arith, window);
            window_to = ground (arith, window);
            penalty_from = ground (arith, penalty);
            penalty_to = ground (arith, penalty);
            some_forks = some_forks;
            id_not_zero = λ z. absurd (let y = bytes_eq_refl zero_hash in cc);
          })
        where
          lowest :
              (c : Consensus)
              → ((is_mainnet c.network_type && ltb c.minimum_difficulty 100000)
                  || ltb 1000000000 c.minimum_difficulty)
                ≡ false
              → (is_mainnet c.network_type ≡ false) ⊎ (100000 ≤ c.minimum_difficulty)
          lowest c d = elim (Bool-cases (is_mainnet c.network_type)) [
            | inl main ↦ inr (ground arith)
            | inr other ↦ inl other
          ]

      named :
          (bytes_eq given.pool_name default_name ≡ true)
            ⊎ (bytes_eq given.pool_name default_name ≡ false)
          → IsConsensus c'
      named (inl y) = checked (record given { pool_name = main_name }) (rw (y, verify) at e)
      named (inr n) = checked given (rw (n, verify) at e)
