-- ===== src/Codec/Uvarint.antt =====
-- encoding/binary's varints: what is written is read back, and how long it is.
use p2pool_observer.Prelude.{
  ℕ, zero, suc, ◌*◌, ◌/◌, ◌^◌, ◌<◌, ◌≡◌, refl, arith, List, ◌++◌, All, Bool-cases, ltb, inl, inr,
  ◌∙◌,
}
use p2pool_observer.Codec.{ok, IsU64, IsByte, uvarint_bytes, uvarint, uvarint_rest, read_uvarint}
use p2pool_observer.Codec.Reads.{Reads}

uvarint_rest-bytes :
    (k v : ℕ) (rest : List ℕ)
    → v < 2 * 128 ^ k
    → uvarint_rest (suc k) (uvarint_bytes k v ++ rest) ≡ ok (v, rest)
unfolding uvarint_rest uvarint_bytes
uvarint_rest-bytes zero v rest h = ground arith
uvarint_rest-bytes (suc k) v rest h =
    ground (arith, uvarint_rest-bytes k (v / 128) rest (omega arith))

read_uvarint-cons :
    (k v : ℕ) (rest : List ℕ)
    → read_uvarint (uvarint_bytes k v ++ rest) ≡ uvarint_rest 10 (uvarint_bytes k v ++ rest)
unfolding read_uvarint uvarint_bytes
read_uvarint-cons zero v rest = refl
read_uvarint-cons (suc k) v rest = elim (Bool-cases (ltb v 128)) [ inl e ↦ rw e | inr e ↦ rw e ]

-- A uint64 written by AppendUvarint is read back by ReadUvarint, and what follows is left.
pub Reads-uvarint : (v : ℕ) → IsU64 v → Reads read_uvarint (uvarint v) v
unfolding uvarint
Reads-uvarint v h = record {
  run = λ rest. read_uvarint-cons 9 v rest ∙ uvarint_rest-bytes 9 v rest (omega arith);
}

-- AppendUvarint writes bytes.
uvarint_bytes-IsByte : (k v : ℕ) → v < 256 * 128 ^ k → All IsByte (uvarint_bytes k v)
unfolding uvarint_bytes
uvarint_bytes-IsByte zero v h = omega arith
uvarint_bytes-IsByte (suc k) v h = ground (arith, uvarint_bytes-IsByte k (v / 128) (omega arith))

pub uvarint-IsByte : (v : ℕ) → IsU64 v → All IsByte (uvarint v)
unfolding uvarint
uvarint-IsByte v h = uvarint_bytes-IsByte 9 v (omega arith)
