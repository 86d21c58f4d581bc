-- ===== src/Examples/Selection.antt =====
-- Five numbers, and three blocks that a difficulty follows from.
use mathlib.Core.List.{Perm}
use p2pool_observer.Prelude.{ℕ, ◌≡◌, arith, List, [], ◌∷◌, ltb, length}
use p2pool_observer.Codec.{ok}
use p2pool_observer.Types.Uint128.{exact}
use p2pool_observer.Utils.NthElement.{nth_element}
use p2pool_observer.Utils.NthElement.Selects.{nth_element-perm}
use p2pool_observer.SideChain.NextDifficulty.{DifficultyData, next_difficulty}
use p2pool_observer.SideChain.NextDifficulty.Minimum.{AtLeast, next_difficulty-AtLeast}
use p2pool_observer.Examples.Chain.{default_consensus}

abbrev numbers : List ℕ
numbers = 5 ∷ 3 ∷ 9 ∷ 1 ∷ 4 ∷ []

nth_element-perm_example :
    (r : List ℕ) × (nth_element ltb numbers 2 ≡ ok r) × Perm r numbers × (length r ≡ length numbers)
nth_element-perm_example = nth_element-perm ltb numbers 2 (omega arith)

abbrev entry : ℕ → ℕ → DifficultyData
entry cumulative time = record {
  cumulative_difficulty = record { lo = cumulative; hi = 0 };
  timestamp = time;
}

next_difficulty-AtLeast_example : AtLeast exact default_consensus (
    next_difficulty exact default_consensus
      (1020 ∷ 1010 ∷ 1000 ∷ [])
      (entry 9000000 1020 ∷ entry 6000000 1010 ∷ entry 3000000 1000 ∷ []))
next_difficulty-AtLeast_example =
    next_difficulty-AtLeast exact default_consensus (1020 ∷ 1010 ∷ 1000 ∷ [])
      (entry 9000000 1020 ∷ entry 6000000 1010 ∷ entry 3000000 1000 ∷ []) (omega arith)
      (omega arith) (omega arith) (omega arith) (omega arith, (omega arith, (omega arith, tt)))
