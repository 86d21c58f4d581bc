-- ===== src/Mempool.antt =====
-- p2pool/mempool/mempool.go: which transactions go into a block.
pub mod BlockReward
pub mod Picking
use Prim.Native.Nat.{compare, Ordering}
use p2pool_observer.Prelude.{
  ℕ, zero, suc, ◌+◌, ◌-◌, ◌*◌, ◌%◌, ◌^◌, Bool, true, false, Option, none, some, List, [], ◌∷◌, ◌++◌,
  ltb, leb, ◌==◌, if◌then◌else◌, length, get_elem?, set,
}
use p2pool_observer.Codec.{Result, ok, err, panic, stuck}
use p2pool_observer.Types.Uint128.{Difficulty, Uint128}
use p2pool_observer.Types.Difficulty.{from64}
use p2pool_observer.Types.Hash.{compare_hash}

pub record MempoolEntry : Type 0 where
  pub id : List ℕ
  pub blob_size : ℕ
  pub weight : ℕ
  pub fee : ℕ

-- Mempool.Fees, from the sum so far; the sum wraps.
unfoldable pub fees : ℕ → List MempoolEntry → ℕ
fees r [] = r
fees r (e ∷ m) = fees ((r + e.fee) % 2 ^ 64) m

-- Mempool.Weight
unfoldable pub total_weight : ℕ → List MempoolEntry → ℕ
total_weight r [] = r
total_weight r (e ∷ m) = total_weight ((r + e.weight) % 2 ^ 64) m

-- MempoolEntry.Compare: `lt` where `t` is preferred over `o`; the products wrap.
unfoldable pub compare_entries : MempoolEntry → MempoolEntry → Ordering
compare_entries t o =
    let a = t.fee * o.weight % 2 ^ 64 in
    let b = o.fee * t.weight % 2 ^ 64 in
    if ltb b a
    then Ordering.lt
    else if ltb a b
    then Ordering.gt
    else if ltb t.weight o.weight
    then Ordering.lt
    else if ltb o.weight t.weight
    then Ordering.gt
    else compare_hash t.id o.id

module _ (lib : Uint128) where
  -- GetBlockReward: beyond the median weight the base reward is scaled down.
  -- `panic` is Mul64's panic on overflow.
  unfoldable pub get_block_reward : ℕ → ℕ → ℕ → ℕ → Result ℕ
  get_block_reward base_reward median_weight fees weight =
      let doubled = median_weight * 2 % 2 ^ 64 in
      if leb weight median_weight
      then ok ((base_reward + fees) % 2 ^ 64)
      else if ltb doubled weight
      then ok 0
      else elim (lib.mul64 (from64 base_reward) ((doubled + 2 ^ 64 - weight) % 2 ^ 64)) [
        | none ↦ panic
        | some product ↦
            ok (((lib.div64 (lib.div64 product median_weight) median_weight).lo + fees) % 2 ^ 64)
      ]
