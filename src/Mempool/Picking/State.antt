-- ===== src/Mempool/Picking/State.antt =====
-- The loops of Mempool.Pick, with the variables that they change.
use Prim.Native.Nat.{Ordering}
use p2pool_observer.Prelude.{
  ℕ, zero, suc, ◌+◌, ◌-◌, ◌%◌, ◌^◌, min, true, false, Option, none, some, List, [], ◌∷◌, ◌++◌, ltb,
  ◌==◌, if◌then◌else◌, length, get_elem?, set,
}
use p2pool_observer.Codec.{Result, ok, err, panic, stuck}
use p2pool_observer.Types.Uint128.{Uint128}
use p2pool_observer.Mempool.{MempoolEntry, get_block_reward, compare_entries}

pub record PickState : Type 0 where
  pub final_reward : ℕ
  pub final_fees : ℕ
  pub final_weight : ℕ
  pub picked : List MempoolEntry

-- The best reward so far, and `k`: `none` is -1.
pub record Choice : Type 0 where
  pub best : ℕ
  pub k : Option ℕ

module _ (lib : Uint128) (base_reward median_weight : ℕ) where
  -- `reward := GetBlockReward(...)` for one more transaction `tx`, and `k` becomes `index` if it is
  -- above the best so far.
  unfoldable pub try_reward : PickState → MempoolEntry → ℕ → Choice → Result Choice
  try_reward s tx index c =
      elim (get_block_reward lib base_reward median_weight ((s.final_fees + tx.fee) % 2 ^ 64)
        ((s.final_weight + tx.weight) % 2 ^ 64)) [
          | ok reward ↦
              ok (if ltb c.best reward then record { best = reward; k = some index } else c)
          | err e ↦ err e
          | panic ↦ panic
          | stuck ↦ stuck
        ]

  -- The inner loop, with the rounds left, downwards from the index below `j`.
  unfoldable pub try_replacing : ℕ → ℕ → PickState → Choice → Result Choice
  try_replacing zero j s c = ok c
  try_replacing (suc n) j s c = elim (get_elem? s.picked (j - 1)) [
    | none ↦ panic
    | some prev_tx ↦ elim (try_reward s prev_tx (j - 1) c) [
      | ok c' ↦ try_replacing n (j - 1) s c'
      | err e ↦ err e
      | panic ↦ panic
      | stuck ↦ stuck
    ]
  ]

  -- What is tried for one transaction: adding it sets `k` to 1; above the median weight, each of
  -- the last 100 picked is tried too.
  unfoldable pub choose : PickState → MempoolEntry → Result Choice
  choose s tx = elim (try_reward s tx 1 (record { best = s.final_reward; k = none })) [
    | ok c ↦ elim (ltb median_weight ((s.final_weight + tx.weight) % 2 ^ 64)) [
      | true ↦ try_replacing (min (length s.picked) 100) (length s.picked) s c
      | false ↦ ok c
    ]
    | err e ↦ err e
    | panic ↦ panic
    | stuck ↦ stuck
  ]

  -- `m2[k] = tx`, with the fees and the weight adjusted.
  unfoldable pub replace_at : PickState → MempoolEntry → ℕ → Result PickState
  replace_at s tx k = elim (get_elem? s.picked k) [
    | none ↦ panic
    | some prev_tx ↦ ok (record s {
      picked = set s.picked k tx;
      final_fees = (s.final_fees + (tx.fee + 2 ^ 64 - prev_tx.fee) % 2 ^ 64) % 2 ^ 64;
      final_weight = (s.final_weight + (tx.weight + 2 ^ 64 - prev_tx.weight) % 2 ^ 64) % 2 ^ 64;
    })
  ]

  unfoldable pub append_tx : PickState → MempoolEntry → PickState
  append_tx s tx = record s {
    picked = s.picked ++ (tx ∷ []);
    final_fees = (s.final_fees + tx.fee) % 2 ^ 64;
    final_weight = (s.final_weight + tx.weight) % 2 ^ 64;
  }

  -- `if k == i { append } else if k >= 0 { replace }`
  unfoldable pub apply_choice : PickState → ℕ → MempoolEntry → Choice → Result PickState
  apply_choice s i tx c =
      let s' = record s { final_reward = c.best } in
      elim c.k [
        | none ↦ ok s'
        | some k ↦ if k == i then ok (append_tx s' tx) else replace_at s' tx k
      ]

  -- One round of the outer loop.
  unfoldable pub pick_step : ℕ → PickState → MempoolEntry → Result PickState
  pick_step i s tx = elim (choose s tx) [
    | ok c ↦ apply_choice s i tx c
    | err e ↦ err e
    | panic ↦ panic
    | stuck ↦ stuck
  ]

  unfoldable pub pick_loop : ℕ → PickState → List MempoolEntry → Result (List MempoolEntry)
  pick_loop i s [] = ok s.picked
  pick_loop i s (tx ∷ m) = elim (pick_step i s tx) [
    | ok s' ↦ pick_loop (i + 1) s' m
    | err e ↦ err e
    | panic ↦ panic
    | stuck ↦ stuck
  ]

-- Mempool.Pick; `sort_func` is slices.SortFunc.
module _ (lib : Uint128)
    (sort_func : (MempoolEntry → MempoolEntry → Ordering)
      → List MempoolEntry
      → List MempoolEntry) where
  unfoldable pub pick : List MempoolEntry → ℕ → ℕ → ℕ → Result (List MempoolEntry)
  pick m base_reward miner_tx_weight median_weight =
      pick_loop lib base_reward median_weight 0
        (record {
          final_reward = base_reward;
          final_fees = 0;
          final_weight = miner_tx_weight;
          picked = [];
        })
        (sort_func compare_entries m)
