-- ===== src/Types/ProofOfWork.antt =====
-- DifficultyFromPoW and CheckPoW of types/difficulty.go, over the package github.com/holiman/uint256.

pub mod Exact
use Prim.Native.Nat.{Ordering}
use p2pool_observer.Prelude.{ℕ, ◌-◌, ◌%◌, ◌^◌, Bool, true, false, List, if◌then◌else◌}
use p2pool_observer.Codec.{le_value}
use p2pool_observer.Types.Uint128.{Difficulty, of_value}
use p2pool_observer.Types.Difficulty.{zero_difficulty, cmp}
use p2pool_observer.Types.Hash.{bytes_eq, zero_hash}

-- powBase
abbrev pub pow_base : ℕ
pow_base = 2 ^ 256 - 1

-- `o >= 0` of the result of Cmp.
unfoldable pub at_least : Ordering → Bool
at_least Ordering.lt = false
at_least Ordering.eq = true
at_least Ordering.gt = true

-- `div` is uint256's Div. The hash is read as a little endian number: its big endian words are taken in the
-- reverse order, with their bytes reversed. Of the quotient the low 16 bytes are kept.
module _ (div : ℕ → ℕ → ℕ) where
  -- DifficultyFromPoW
  unfoldable pub difficulty_from_pow : List ℕ → Difficulty
  difficulty_from_pow pow_hash =
      if bytes_eq pow_hash zero_hash
      then zero_difficulty
      else of_value (div pow_base (le_value pow_hash) % 2 ^ 128)

  -- Difficulty.CheckPoW
  unfoldable pub check_pow : Difficulty → List ℕ → Bool
  check_pow d pow = at_least (cmp (difficulty_from_pow pow) d)
