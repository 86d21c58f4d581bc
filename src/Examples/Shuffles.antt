-- ===== src/Examples/Shuffles.antt =====
-- Three values in another order.
use mathlib.Core.List.{Perm}
use p2pool_observer.Prelude.{ℕ, ◌≡◌, List, [], ◌∷◌}
use p2pool_observer.Codec.{ok}
use p2pool_observer.Utils.Shuffle.{shuffle_shares}
use p2pool_observer.Utils.Shuffle.Permutes.{shuffle_shares-perm}
use p2pool_observer.Examples.{some_key}

abbrev echo : List ℕ → List ℕ
echo bytes = bytes

shuffle_shares-perm_example :
    (r : List ℕ) × (shuffle_shares echo 2 some_key (1 ∷ 2 ∷ 3 ∷ []) ≡ ok r)
    × Perm r (1 ∷ 2 ∷ 3 ∷ [])
shuffle_shares-perm_example = shuffle_shares-perm echo 2 some_key (1 ∷ 2 ∷ 3 ∷ [])
