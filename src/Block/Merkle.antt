-- ===== src/Block/Merkle.antt =====
-- RootHash of monero/crypto/merkle.go, PreviousPowerOfTwo of utils/number.go, and the hashing blob and
-- the hashes of monero/block/block.go that use it.
use p2pool_observer.Prelude.{
  ℕ, zero, suc, ◌+◌, ◌-◌, ◌*◌, ◌/◌, false, Option, none, List, [], ◌∷◌, ◌++◌, ltb, leb, ◌==◌,
  if◌then◌else◌, length, take, drop,
}
use p2pool_observer.Codec.{Result, ok, panic, uvarint}
use p2pool_observer.Types.Hash.{bytes_eq, zero_hash}
use p2pool_observer.Utils.NthElement.{then_result}
use p2pool_observer.Transaction.Coinbase.{CoinbaseTransaction, coinbase_append_binary_flags}
use p2pool_observer.Block.{Block, header_blob}

-- The greatest power of two up to `x`, from `p` on; 64 bits have at most 63 further powers.
unfoldable pub power_up_to : ℕ → ℕ → ℕ → ℕ
power_up_to zero p x = p
power_up_to (suc rounds) p x = if leb (2 * p) x then power_up_to rounds (2 * p) x else p

-- PreviousPowerOfTwo
unfoldable pub previous_power_of_two : ℕ → ℕ
previous_power_of_two x = if x == 0 then 0 else power_up_to 63 1 x

module _ (keccak : List ℕ → List ℕ) where
  -- BinaryTreeHash.leafHash
  unfoldable pub leaf_hash : List (List ℕ) → Result (List ℕ)
  leaf_hash [] = panic
  leaf_hash (h ∷ []) = ok h
  leaf_hash (h ∷ k ∷ hs) = ok (keccak (h ++ k))

  -- The hashes of the successive pairs.
  unfoldable pub hash_pairs : List (List ℕ) → List (List ℕ)
  hash_pairs [] = []
  hash_pairs (h ∷ []) = h ∷ []
  hash_pairs (h ∷ k ∷ hs) = keccak (h ++ k) ∷ hash_pairs hs

  -- The last loop of RootHash over a tree of `count` hashes; each round halves it.
  unfoldable pub halve : ℕ → ℕ → List (List ℕ) → Result (List ℕ)
  halve zero count tree = leaf_hash tree
  halve (suc rounds) count tree =
      if ltb 1 (count / 2) then halve rounds (count / 2) (hash_pairs tree) else leaf_hash tree

  -- BinaryTreeHash.RootHash
  unfoldable pub root_hash : List (List ℕ) → Result (List ℕ)
  root_hash t =
      let count = length t in
      let power = previous_power_of_two count in
      let offset = power * 2 - count in
      if leb count 2
      then leaf_hash t
      else halve 64 power (take offset t ++ hash_pairs (drop offset t))

  -- CoinbaseTransaction.CalculateId; the encoding ends with the base RCT byte.
  unfoldable pub coinbase_id : CoinbaseTransaction → List ℕ
  coinbase_id c =
      let bytes = coinbase_append_binary_flags [] c false in
      keccak
        (keccak (take (length bytes - 1) bytes) ++ (keccak (c.extra_base_rct ∷ []) ++ zero_hash))

  -- Block.HashingBlob
  unfoldable pub hashing_blob : List ℕ → Block → Result (List ℕ)
  hashing_blob buf b =
      then_result (root_hash (coinbase_id b.coinbase ∷ b.transactions))
        (λ root. ok ((header_blob buf b ++ root) ++ uvarint (length b.transactions + 1)))

  -- Block.Id
  unfoldable pub block_id : Block → Result (List ℕ)
  block_id b = then_result (hashing_blob [] b) (λ blob. ok (keccak (uvarint (length blob) ++ blob)))

  -- Block.PowHashWithError, with the seed of a height and RandomX's Hash, whose error is `none`.
  unfoldable pub pow_hash_with_error :
      (ℕ → List ℕ) → (List ℕ → List ℕ → Option (List ℕ)) → Block → Result (Option (List ℕ))
  pow_hash_with_error seed_by_height randomx b =
      let seed = seed_by_height b.coinbase.gen_height in
      if bytes_eq seed zero_hash
      then ok none
      else then_result (hashing_blob [] b) (λ blob. ok (randomx seed blob))
