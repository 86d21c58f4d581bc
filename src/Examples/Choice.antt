-- ===== src/Examples/Choice.antt =====
-- Two shares with one parent.
use p2pool_observer.Prelude.{ℕ, ◌≡◌, refl, arith, true, false, Option, none, List}
use p2pool_observer.Types.Difficulty.{same, cmp}
use p2pool_observer.Types.Hash.{bytes_eq}
use p2pool_observer.SideChain.PoolBlock.{PoolBlock}
use p2pool_observer.SideChain.Verdict.{is_lt}
use p2pool_observer.SideChain.Longer.{descend, common_parent, on_one_chain, is_longer_chain}
use p2pool_observer.SideChain.Longer.Chosen.{Chosen, is_longer_chain-Chosen}
use p2pool_observer.Examples.Blocks.{share}
use p2pool_observer.Examples.Chain.{default_consensus}

abbrev heap : ℕ → PoolBlock
heap address = share

abbrev find : List ℕ → Option PoolBlock
find id = none

abbrev main_height : List ℕ → Option ℕ
main_height id = none

abbrev heavier : PoolBlock
heavier = record share {
  verified = true;
  side = record share.side { cumulative_difficulty = record { lo = 78; hi = 3 } };
}

is_longer_chain-Chosen_example :
    (heavier.verified ≡ true)
    × (heavier.invalid ≡ false)
    × Chosen heap find main_height default_consensus share heavier false
unfolding is_longer_chain on_one_chain descend common_parent bytes_eq cmp same is_lt
is_longer_chain-Chosen_example =
    is_longer_chain-Chosen heap find main_height default_consensus share heavier false (omega arith)
      (omega arith) refl
