-- ===== src/Utils/Number/Size.antt =====
-- UVarInt64Size against the bytes that AppendUvarint writes.
use p2pool_observer.Prelude.{ℕ, zero, suc, ◌/◌, ◌≤◌, ◌≡◌, refl, arith, length, ltb, if◌then◌else◌}
use p2pool_observer.Codec.{IsU64, uvarint, uvarint_bytes}
use p2pool_observer.Utils.Number.{uvarint64_size}

length-uvarint_bytes :
    (k v : ℕ)
    → length (uvarint_bytes (suc k) v)
      ≡ (if ltb v 128 then 1 else suc (length (uvarint_bytes k (v / 128))))
unfolding uvarint_bytes
length-uvarint_bytes k v = ground arith

length-uvarint_last : (v : ℕ) → length (uvarint_bytes zero v) ≡ 1
unfolding uvarint_bytes
length-uvarint_last v = refl

-- UVarInt64Size is the number of bytes that a uint64 takes as a varint.
pub length-uvarint : (v : ℕ) → IsU64 v → length (uvarint v) ≡ uvarint64_size v
unfolding uvarint uvarint64_size
length-uvarint v h = ground (
  arith,
  length-uvarint_bytes 8 v,
  length-uvarint_bytes 7 (v / 128),
  length-uvarint_bytes 6 (v / 128 / 128),
  length-uvarint_bytes 5 (v / 128 / 128 / 128),
  length-uvarint_bytes 4 (v / 128 / 128 / 128 / 128),
  length-uvarint_bytes 3 (v / 128 / 128 / 128 / 128 / 128),
  length-uvarint_bytes 2 (v / 128 / 128 / 128 / 128 / 128 / 128),
  length-uvarint_bytes 1 (v / 128 / 128 / 128 / 128 / 128 / 128 / 128),
  length-uvarint_bytes 0 (v / 128 / 128 / 128 / 128 / 128 / 128 / 128 / 128),
  length-uvarint_last (v / 128 / 128 / 128 / 128 / 128 / 128 / 128 / 128 / 128),
)

pub uvarint64_size-le : (v : ℕ) → uvarint64_size v ≤ 10
unfolding uvarint64_size
uvarint64_size-le v = ground arith
