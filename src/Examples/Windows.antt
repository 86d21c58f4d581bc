-- ===== src/Examples/Windows.antt =====
-- A window over two shares.
use p2pool_observer.Prelude.{ℕ, ◌≡◌, false, Option, none, some, List, []}
use p2pool_observer.Types.Uint128.{Difficulty, exact}
use p2pool_observer.SideChain.PoolBlock.{PoolBlock}
use p2pool_observer.SideChain.Window.{blocks_in_pplns_window}
use p2pool_observer.SideChain.Window.Termination.{ran_out, blocks_in_pplns_window-returns}
use p2pool_observer.Examples.Blocks.{share}

abbrev genesis : PoolBlock
genesis = record share { side = record share.side { uncles = []; height = 0 } }

abbrev tip : PoolBlock
tip = record genesis {
  side = record genesis.side { height = 1 };
  iteration_cache = some (record { parent = some 0; uncles = [] });
}

abbrev heap : ℕ → PoolBlock
heap address = genesis

abbrev find : List ℕ → Option PoolBlock
find id = none

abbrev difficulty_by_height : ℕ → Difficulty
difficulty_by_height height = record { lo = 300000000000; hi = 0 }

blocks_in_pplns_window-returns_example :
    ran_out (blocks_in_pplns_window heap find exact 2160 20 difficulty_by_height tip) ≡ false
blocks_in_pplns_window-returns_example =
    blocks_in_pplns_window-returns heap find exact 2160 20 difficulty_by_height tip
