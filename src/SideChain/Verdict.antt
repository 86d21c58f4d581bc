-- ===== src/SideChain/Verdict.antt =====
-- The results of SideChain.verifyBlock and getDifficulty of p2pool/sidechain/sidechain.go, and the tests
-- of an order.
use Prim.Native.Nat.{Ordering}
use p2pool_observer.Prelude.{ℕ, Bool, true, false, ◌&&◌, List, [], ◌∷◌}
use p2pool_observer.Types.Uint128.{Difficulty}
use p2pool_observer.Types.Hash.{compare_hash}

-- Why a share is invalid, or cannot be verified yet.
pub data Reason : Type 0 where
  genesis_parameters no_parent_id parent_missing parent_not_verified parent_invalid : Reason
  wrong_seed wrong_height uncle_order empty_uncle uncle_mined : Reason
  uncle_missing uncle_not_verified uncle_invalid uncle_height : Reason
  different_chain wrong_cumulative_difficulty no_difficulty difficulty_fails wrong_difficulty :
      Reason
  no_shares wrong_output_count wrong_total_reward wrong_output : Reason

-- The two errors of verifyBlock: `unverifiable` is the first one, `invalid` the second one. `looping` is
-- no outcome of the code: a walk back through the chain ran out of fuel.
pub data Failure : Type 0 where
  looping : Failure
  unverifiable invalid : Reason → Failure

pub data Verdict : Type 0 where
  verified : Verdict
  fails : Failure → Verdict

-- What getDifficulty returns: a difficulty, or one of its two errors.
pub data NextDifficulty : Type 0 where
  difficulty_of : Difficulty → NextDifficulty
  not_yet never : NextDifficulty

unfoldable pub is_eq : Ordering → Bool
is_eq Ordering.lt = false
is_eq Ordering.eq = true
is_eq Ordering.gt = false

unfoldable pub is_lt : Ordering → Bool
is_lt Ordering.lt = true
is_lt Ordering.eq = false
is_lt Ordering.gt = false

-- The test of the uncles' order.
unfoldable pub ascending_from : List ℕ → List (List ℕ) → Bool
ascending_from h [] = true
ascending_from h (k ∷ ks) = is_lt (compare_hash h k) && ascending_from k ks

unfoldable pub ascending : List (List ℕ) → Bool
ascending [] = true
ascending (h ∷ hs) = ascending_from h hs

-- A check that goes on with the cumulative difficulty so far, or ends verifyBlock.
pub data Check : Type 0 where
  goes_on : Difficulty → Check
  ends : Failure → Check
