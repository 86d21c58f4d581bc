-- ===== src/Examples/Mempools.antt =====
-- Transactions that wait for a block.
use Prim.Native.Nat.{Ordering}
use p2pool_observer.Prelude.{◌+◌, ◌≤◌, ◌≡◌, refl, arith, List, [], ◌∷◌}
use p2pool_observer.Codec.{ok, panic}
use p2pool_observer.Types.Uint128.{exact}
use p2pool_observer.Mempool.{MempoolEntry, get_block_reward}
use p2pool_observer.Mempool.BlockReward.{exact_reward, get_block_reward-exact}
use p2pool_observer.Mempool.Picking.{pick}
use p2pool_observer.Mempool.Picking.Defects.{pick-panics}
use p2pool_observer.Examples.{some_key}

abbrev one_tx : MempoolEntry
one_tx = record { id = some_key; blob_size = 1500; weight = 1500; fee = 30000000 }

get_block_reward-exact_example :
    (get_block_reward exact 600000000000 300000 50000000 400000
      ≡ ok (exact_reward 600000000000 300000 50000000 400000))
    × (exact_reward 600000000000 300000 50000000 400000 ≤ 600000000000 + 50000000)
get_block_reward-exact_example =
    get_block_reward-exact exact 600000000000 300000 50000000 400000 (omega arith) (omega arith)

-- A sort that suffices for one transaction.
abbrev keep_order : (MempoolEntry → MempoolEntry → Ordering) → List MempoolEntry → List MempoolEntry
keep_order f m = m

pick-panics_example : pick exact keep_order (one_tx ∷ []) 600000000000 2000 300000 ≡ panic
pick-panics_example =
    pick-panics exact keep_order (one_tx ∷ []) [] one_tx 600000000000 2000 300000 refl (omega arith)
      (omega arith) (omega arith) (omega arith)
