-- ===== src/Mempool/Picking/Defects.antt =====
-- Mempool.Pick sets `k` to 1 where it means the index of the transaction at hand.
use Prim.Native.Nat.{Ordering}
use p2pool_observer.Prelude.{ℕ, ◌+◌, ◌^◌, ◌≤◌, ◌<◌, ◌≡◌, arith, List, [], ◌∷◌}
use p2pool_observer.Codec.{panic}
use p2pool_observer.Types.Uint128.{Uint128}
use p2pool_observer.Mempool.{MempoolEntry, get_block_reward, compare_entries}
use p2pool_observer.Mempool.Picking.State.{
  PickState, try_reward, choose, replace_at, apply_choice, pick_step, pick_loop, pick,
}

abbrev start : ℕ → ℕ → PickState
start base miner_tx_weight = record {
  final_reward = base;
  final_fees = 0;
  final_weight = miner_tx_weight;
  picked = [];
}

module _ (lib : Uint128) where
  -- The first transaction, where it fits below the median weight and pays a fee.
  first_step-panics :
      (base miner_tx_weight median : ℕ) (tx : MempoolEntry)
      → 0 < tx.fee
      → base + tx.fee < 2 ^ 64
      → miner_tx_weight + tx.weight ≤ median
      → median < 2 ^ 64
      → pick_step lib base median 0 (start base miner_tx_weight) tx ≡ panic
  unfolding pick_step choose try_reward get_block_reward apply_choice replace_at
  first_step-panics base w median tx h k l m = ground arith

-- Pick panics, with an index out of range, whenever the transaction that sorts first pays a fee and
-- fits under the median weight beside the miner transaction, the base reward and the fee fit 64 bits,
-- and so does the median.
pub pick-panics :
    (lib : Uint128)
    (sort_func : (MempoolEntry → MempoolEntry → Ordering) → List MempoolEntry → List MempoolEntry)
    (m rest : List MempoolEntry) (tx : MempoolEntry) (base miner_tx_weight median : ℕ)
    → sort_func compare_entries m ≡ tx ∷ rest
    → 0 < tx.fee
    → base + tx.fee < 2 ^ 64
    → miner_tx_weight + tx.weight ≤ median
    → median < 2 ^ 64
    → pick lib sort_func m base miner_tx_weight median ≡ panic
unfolding pick pick_loop
pick-panics lib sort_func m rest tx base w median e h k l b =
    rw (e, first_step-panics lib base w median tx h k l b, pick_loop)
