-- ===== src/Codec.antt =====
-- The byte streams that the decoders read and the encoders append to: what the source uses of Go's
-- encoding/binary and io, over the bytes that are left.
pub mod Uvarint
pub mod Reads
pub mod Hashes
use p2pool_observer.Prelude.{
  ℕ, zero, suc, ◌+◌, ◌*◌, ◌/◌, ◌%◌, ◌^◌, ◌<◌, ◌≡◌, refl, arith, Bool, true, false, ◌&&◌, List, [],
  ◌∷◌, ◌++◌, length, ltb, ◌==◌, if◌then◌else◌, All,
}

-- `eof` is io.EOF; the others stand for the errors that the decoders make themselves.
pub data Error : Type 0 where
  eof unexpected_eof varint_overflow : Error
  unknown_tag padding_not_zero padding_too_big nonce_too_big too_many_public_keys : Error
  tag_already_exists unknown_output_type unsupported_version invalid_input_count : Error
  invalid_input_type invalid_unlock_time extra_too_large leftover_extra invalid_base_rct : Error
  missing_difficulty missing_uncle missing_parent difficulty_wraps : Error
  unsupported_major_version minor_version_too_small : Error
  buffer_too_large wrong_major_version parent_index_out_of_bounds parent_is_nil : Error

-- A Go call: a value, an error, or a panic. `stuck` is no outcome of a Go call: a loop of the model
-- ran out of fuel.
pub data Result {ℓ} (A : Type ℓ) : Type ℓ where
  ok : A → Result A
  err : Error → Result A
  panic : Result A
  stuck : Result A

-- A decoder takes the bytes that are left, and leaves the bytes that it has not read.
abbrev pub Reader : Type 0 → Type 0
Reader A = List ℕ → Result (A × List ℕ)

infixl 5 ◌>>=◌ ◌>>◌
abbrev pub ◌>>=◌ : {A B : Type 0} → Reader A → (A → Reader B) → Reader B
◌>>=◌ m f bs = elim (m bs) [
  | ok (a, rest) ↦ f a rest
  | err e ↦ err e
  | panic ↦ panic
  | stuck ↦ stuck
]

abbrev pub ◌>>◌ : {B : Type 0} → Reader (Unit {0}) → Reader B → Reader B
m >> k = m >>= λ _. k

abbrev pub pure : {A : Type 0} → A → Reader A
pure a bs = ok (a, bs)

abbrev pub fail : {A : Type 0} → Error → Reader A
fail e bs = err e

-- `if !b { return errors.New(e) }`
abbrev pub require : Bool → Error → Reader (Unit {0})
require true e = pure tt
require false e = fail e

abbrev pub IsByte : ℕ → Type 0
IsByte b = b < 256

abbrev pub IsU64 : ℕ → Type 0
IsU64 v = v < 2 ^ 64

-- reader.ReadByte()
unfoldable pub read_byte : Reader ℕ
read_byte [] = err eof
read_byte (b ∷ bs) = ok (b, bs)

-- The bytes after the first of io.ReadFull: the stream ends inside the buffer.
read_more : ℕ → Reader (List ℕ)
read_more zero bs = ok ([], bs)
read_more (suc n) [] = err unexpected_eof
read_more (suc n) (b ∷ bs) = elim (read_more n bs) [
  | ok (xs, rest) ↦ ok (b ∷ xs, rest)
  | err e ↦ err e
  | panic ↦ panic
  | stuck ↦ stuck
]

-- io.ReadFull(reader, buf) for a buffer of `n` bytes.
unfoldable pub read_full : ℕ → Reader (List ℕ)
unfolding read_more
read_full zero bs = ok ([], bs)
read_full (suc n) [] = err eof
read_full (suc n) (b ∷ bs) = read_more (suc n) (b ∷ bs)

-- binary.AppendUvarint: seven bits a byte, the lowest first, with the top bit on all but the last.
-- `k` is how many bytes may still follow.
unfoldable pub uvarint_bytes : ℕ → ℕ → List ℕ
uvarint_bytes zero v = v % 256 ∷ []
uvarint_bytes (suc k) v =
    let rest = uvarint_bytes k (v / 128) in if ltb v 128 then v ∷ [] else (v % 128 + 128) ∷ rest

-- A uint64 takes ten bytes at most.
unfoldable pub uvarint : ℕ → List ℕ
uvarint v = uvarint_bytes 9 v

-- The loop of binary.ReadUvarint with `k` rounds left: the tenth byte may only be 0 or 1.
unfoldable pub uvarint_rest : ℕ → Reader ℕ
uvarint_rest zero bs = err varint_overflow
uvarint_rest (suc k) [] = err unexpected_eof
uvarint_rest (suc k) (b ∷ bs) =
    let more : Result (ℕ × List ℕ) = elim (uvarint_rest k bs) [
      | ok (v, rest) ↦ ok (b % 128 + 128 * v, rest)
      | err e ↦ err e
      | panic ↦ panic
      | stuck ↦ stuck
    ] in
    if ltb b 128 then (if (k == 0) && ltb 1 b then err varint_overflow else ok (b, bs)) else more

-- binary.ReadUvarint
unfoldable pub read_uvarint : Reader ℕ
read_uvarint [] = err eof
read_uvarint (b ∷ bs) = uvarint_rest 10 (b ∷ bs)

-- The `n` low bytes of `v`, the lowest first (binary.LittleEndian.AppendUint32 for n = 4).
unfoldable pub le_bytes : ℕ → ℕ → List ℕ
le_bytes zero v = []
le_bytes (suc n) v = v % 256 ∷ le_bytes n (v / 256)

-- The number that such bytes stand for.
unfoldable pub le_value : List ℕ → ℕ
le_value [] = 0
le_value (b ∷ bs) = b + 256 * le_value bs

-- binary.Read of an unsigned integer of `n` bytes.
unfoldable pub read_le : ℕ → Reader ℕ
read_le n = do bs ← read_full n; pure (le_value bs)

-- The rounds of `for i := 0; i < int(count); i++`: int(count) is negative from 2 ^ 63 on.
unfoldable pub signed_count : ℕ → ℕ
signed_count count = if ltb count (2 ^ 63) then count else 0

pub signed_count_small : (count : ℕ) → count < 2 ^ 63 → signed_count count ≡ count
unfolding signed_count
signed_count_small count h = ground arith
