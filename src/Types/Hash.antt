-- ===== src/Types/Hash.antt =====
-- types/types.go and monero/crypto/crypto.go: 32-byte hashes and keys, and their consensus order.
pub mod Order
use Prim.Native.Nat.{compare, Ordering}
use p2pool_observer.Prelude.{
  ℕ, zero, suc, ◌*◌, Bool, true, false, ◌&&◌, List, [], ◌∷◌, ltb, ◌==◌, if◌then◌else◌, take, drop,
  length, replicate,
}
use p2pool_observer.Codec.{le_value}

-- `==` on arrays of bytes.
unfoldable pub bytes_eq : List ℕ → List ℕ → Bool
bytes_eq [] [] = true
bytes_eq [] (y ∷ ys) = false
bytes_eq (x ∷ xs) [] = false
bytes_eq (x ∷ xs) (y ∷ ys) = x == y && bytes_eq xs ys

abbrev pub zero_hash : List ℕ
zero_hash = replicate 32 0

-- The i-th of the four 64-bit words that the bytes hold on a little-endian machine.
unfoldable pub word : List ℕ → ℕ → ℕ
word h i = le_value (take 8 (drop (8 * i) h))

-- Hash.Compare and CompareConsensusPublicKeyBytes: -1, 0 and 1 are `lt`, `eq` and `gt`.
unfoldable pub compare_hash : List ℕ → List ℕ → Ordering
compare_hash a b =
    if ltb (word a 3) (word b 3)
    then Ordering.lt
    else if ltb (word b 3) (word a 3)
    then Ordering.gt
    else if ltb (word a 2) (word b 2)
    then Ordering.lt
    else if ltb (word b 2) (word a 2)
    then Ordering.gt
    else if ltb (word a 1) (word b 1)
    then Ordering.lt
    else if ltb (word b 1) (word a 1)
    then Ordering.gt
    else if ltb (word a 0) (word b 0)
    then Ordering.lt
    else if ltb (word b 0) (word a 0)
    then Ordering.gt
    else Ordering.eq

-- HashFromBytes: bytes of another length give the zero hash.
unfoldable pub hash_from_bytes : List ℕ → List ℕ
hash_from_bytes buf = if length buf == 32 then buf else zero_hash
