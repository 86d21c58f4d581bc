-- ===== src/SideChain/Shares.antt =====
-- Shares of p2pool/sidechain/share.go, their order and their compaction, ComparePacked of
-- monero/address/packed.go, and GetShares of p2pool/sidechain/utils.go.
pub mod Order
pub mod Compacted
pub mod Distinct
use Prim.Native.Nat.{compare, Ordering}
use p2pool_observer.Prelude.{
  ℕ, zero, suc, ◌+◌, ◌-◌, ◌*◌, ◌%◌, ◌^◌, Bool, true, false, not, ◌&&◌, Option, none, some, List, [],
  ◌∷◌, ltb, ◌==◌, if◌then◌else◌, length, get_elem?, map,
}
use p2pool_observer.Codec.{Result, ok, err, panic, stuck}
use p2pool_observer.Types.Uint128.{Difficulty, Uint128}
use p2pool_observer.Types.Difficulty.{add}
use p2pool_observer.Types.Hash.{bytes_eq, compare_hash}
use p2pool_observer.Utils.Shuffle.{shuffle_shares}
use p2pool_observer.SideChain.Share.{Share, PackedAddress}
use p2pool_observer.SideChain.PoolBlock.{PoolBlock}
use p2pool_observer.SideChain.Consensus.{Consensus}
use p2pool_observer.SideChain.Window.{blocks_in_pplns_window}

-- `==` on packed addresses.
unfoldable pub same_address : PackedAddress → PackedAddress → Bool
same_address a b = bytes_eq a.spend b.spend && bytes_eq a.view b.view

-- Shares.Index; `none` is -1.
unfoldable pub index_of : List Share → PackedAddress → Option ℕ
index_of [] address = none
index_of (s ∷ ss) address =
    if same_address s.address address
    then some 0
    else elim (index_of ss address) [ none ↦ none | some i ↦ some (suc i) ]

-- PackedAddress.ComparePacked
unfoldable pub compare_packed : PackedAddress → PackedAddress → Ordering
compare_packed a b = elim (compare_hash a.spend b.spend) [
  | Ordering.lt ↦ Ordering.lt
  | Ordering.gt ↦ Ordering.gt
  | Ordering.eq ↦ compare_hash a.view b.view
]

-- The last byte of the spend key, of 32 bytes.
unfoldable pub last_byte : PackedAddress → ℕ
last_byte a = elim (get_elem? a.spend 31) [ none ↦ 0 | some v ↦ v ]

-- The function that Sort hands to slices.SortFunc, by the sign of its result.
unfoldable pub compare_shares : Share → Share → Ordering
compare_shares a b =
    if not (last_byte a.address == last_byte b.address)
    then compare (last_byte a.address) (last_byte b.address)
    else if same_address a.address b.address
    then Ordering.eq
    else compare_packed a.address b.address

-- The loop of Compact, which merges into the share at the index; the shares before it are done.
unfoldable pub compact_loop : Share → List Share → List Share
compact_loop current [] = current ∷ []
compact_loop current (s ∷ ss) =
    let merged = compact_loop (record current { weight = add current.weight s.weight }) ss in
    let next = compact_loop s ss in
    if same_address current.address s.address then merged else current ∷ next

-- `sort_func` is slices.SortFunc, as the sorted slice.
module _ (sort_func : (Share → Share → Ordering) → List Share → List Share) where
  unfoldable pub compact_sorted : List Share → List Share
  compact_sorted [] = []
  compact_sorted (s ∷ ss) = compact_loop s ss

  -- Shares.Compact
  unfoldable pub compact : List Share → List Share
  compact shares =
      if length shares == 0 then shares else compact_sorted (sort_func compare_shares shares)

  -- The weights that GetSharesOrdered is called back with, as shares.
  unfoldable pub weighed : List (PoolBlock × Difficulty) → List Share
  weighed [] = []
  weighed ((b, weight) ∷ calls) =
      record {
        address = record { spend = b.side.spend_public_key; view = b.side.view_public_key };
        weight = weight;
      }
      ∷ weighed calls

  -- GetSharesOrdered: the shares and the bottom height; on an error they are nil and 0.
  unfoldable pub get_shares_ordered :
      (ℕ → PoolBlock)
      → (List ℕ → Option PoolBlock)
      → Uint128
      → Consensus
      → (ℕ → Difficulty)
      → PoolBlock
      → Result (List Share × ℕ)
  get_shares_ordered heap find lib c difficulty_by_height tip =
      elim (blocks_in_pplns_window heap find lib c.chain_window_size c.uncle_penalty
        difficulty_by_height tip) [
          | ok (bottom_height, calls) ↦ ok (compact (weighed calls), bottom_height)
          | err e ↦ ok ([], 0)
          | panic ↦ panic
          | stuck ↦ stuck
        ]

  -- GetShares; a nil slice stays nil when it is shuffled.
  unfoldable pub get_shares :
      (List ℕ → List ℕ)
      → (ℕ → PoolBlock)
      → (List ℕ → Option PoolBlock)
      → Uint128
      → Consensus
      → (ℕ → Difficulty)
      → PoolBlock
      → Result (List Share × ℕ)
  get_shares keccak heap find lib c difficulty_by_height tip =
      elim (get_shares_ordered heap find lib c difficulty_by_height tip) [
        | ok (shares, bottom_height) ↦
            elim (shuffle_shares keccak tip.cached_share_version tip.side.coinbase_private_key_seed
              shares) [
                | ok shuffled ↦ ok (shuffled, bottom_height)
                | err e ↦ err e
                | panic ↦ panic
                | stuck ↦ stuck
              ]
        | err e ↦ err e
        | panic ↦ panic
        | stuck ↦ stuck
      ]
