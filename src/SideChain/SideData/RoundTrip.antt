-- ===== src/SideChain/SideData/RoundTrip.antt =====
-- What SideData.AppendBinary writes, SideData.FromReader reads back.
use p2pool_observer.Prelude.{
  ℕ, ◌+◌, ◌*◌, ◌^◌, ◌<◌, ◌≡◌, refl, arith, Bool, true, false, List, [], ◌++◌, ltb, if◌then◌else◌,
  length, length-append, append_assoc, append-nil, All, Bool-cases, inl, inr,
}
use p2pool_observer.Codec.{ok, pure, uvarint, le_bytes, signed_count, signed_count_small, IsU64}
use p2pool_observer.Codec.Reads.{
  Reads, Reads-bind, Reads-map, Reads-pure, Reads-read_full, Reads-read_le, length-le_bytes,
}
use p2pool_observer.Codec.Uvarint.{Reads-uvarint}
use p2pool_observer.Codec.Hashes.{
  IsHash, read_hashes, hashes_bytes, append_hashes-bytes, Reads-hashes, length-hashes_bytes,
}
use p2pool_observer.Utils.Number.{uvarint64_size}
use p2pool_observer.Utils.Number.Size.{length-uvarint}
use p2pool_observer.Types.Uint128.{Difficulty, IsU128}
use p2pool_observer.SideChain.SideData.{
  SideData, ExtraBuffer, side_data_buffer_length, append_extra_buffer, side_data_append_binary,
  read_difficulty, read_extra_buffer, side_data_from_reader,
}

-- Fixed lengths and machine widths, as the Go types have them.
pub record IsSideData (b : SideData) : Type 0 where
  pub spend_length : IsHash b.spend_public_key
  pub view_length : IsHash b.view_public_key
  pub seed_length : IsHash b.coinbase_private_key_seed
  pub key_length : IsHash b.coinbase_private_key
  pub parent_length : IsHash b.parent
  pub uncle_lengths : All IsHash b.uncles
  pub uncle_count : length b.uncles < 2 ^ 63
  pub height_fits : IsU64 b.height
  pub difficulty_fits : IsU128 b.difficulty
  pub cumulative_fits : IsU128 b.cumulative_difficulty
  pub software_id_fits : b.extra_buffer.software_id < 2 ^ 32
  pub software_version_fits : b.extra_buffer.software_version < 2 ^ 32
  pub random_number_fits : b.extra_buffer.random_number < 2 ^ 32
  pub extra_nonce_fits : b.extra_buffer.side_chain_extra_nonce < 2 ^ 32

difficulty_bytes : Difficulty → List ℕ
difficulty_bytes d = uvarint d.lo ++ uvarint d.hi

extra_buffer_bytes : ExtraBuffer → List ℕ
extra_buffer_bytes e =
    le_bytes 4 e.software_id
    ++ (le_bytes 4 e.software_version
        ++ (le_bytes 4 e.random_number ++ le_bytes 4 e.side_chain_extra_nonce))

Reads-difficulty : (d : Difficulty) → IsU128 d → Reads read_difficulty (difficulty_bytes d) d
unfolding read_difficulty difficulty_bytes
Reads-difficulty d v =
    Reads-bind _ _ _ _ (Reads-uvarint d.lo v.lo_fits)
      (Reads-map _ (λ hi. record { lo = d.lo; hi = hi }) _ (Reads-uvarint d.hi v.hi_fits) refl)

Reads-extra_buffer :
    (b : SideData)
    → IsSideData b
    → Reads read_extra_buffer (extra_buffer_bytes b.extra_buffer) b.extra_buffer
unfolding read_extra_buffer extra_buffer_bytes
Reads-extra_buffer b v = Reads-bind _ _ _ _ (Reads-read_le 4 e.software_id (omega arith)) (
    Reads-bind _ _ _ _ (Reads-read_le 4 e.software_version (omega arith)) (
      Reads-bind _ _ _ _ (Reads-read_le 4 e.random_number (omega arith)) (
        Reads-map _ (λ n. record e { side_chain_extra_nonce = n }) _
          (Reads-read_le 4 e.side_chain_extra_nonce (omega arith)) refl)))
  where
    e : ExtraBuffer
    e = b.extra_buffer

-- What the version puts in the place of the seed, and at the end.
abbrev key_or_seed : SideData → Bool → List ℕ
key_or_seed b v2 = if v2 then b.coinbase_private_key_seed else b.coinbase_private_key

abbrev extra_bytes : SideData → Bool → List ℕ
extra_bytes b v2 = if v2 then extra_buffer_bytes b.extra_buffer else []

pub side_data_bytes : SideData → Bool → List ℕ
side_data_bytes b v2 =
    b.spend_public_key
    ++ (b.view_public_key
        ++ (key_or_seed b v2
            ++ (b.parent
                ++ (uvarint (length b.uncles)
                    ++ (hashes_bytes b.uncles
                        ++ (uvarint b.height
                            ++ (difficulty_bytes b.difficulty
                                ++ (difficulty_bytes b.cumulative_difficulty
                                    ++ extra_bytes b v2))))))))

-- The version decides which of the two secrets is stored, and whether the extra buffer is: the
-- others stay as the receiver `r` had them.
abbrev pub stored : SideData → SideData → ℕ → SideData
stored r b version =
    if ltb 1 version then record b { coinbase_private_key = r.coinbase_private_key } else record b {
      coinbase_private_key_seed = r.coinbase_private_key_seed;
      extra_buffer = r.extra_buffer;
    }

pub side_data_append_binary-bytes :
    (buf : List ℕ) (b : SideData) (version : ℕ)
    → side_data_append_binary buf b version ≡ buf ++ side_data_bytes b (ltb 1 version)
unfolding side_data_append_binary side_data_bytes append_extra_buffer extra_buffer_bytes
    difficulty_bytes
side_data_append_binary-bytes buf b version = elim (Bool-cases (ltb 1 version)) [
  | inl h ↦ rw h (simp (append_hashes-bytes, append_assoc))
  | inr h ↦ rw h (simp (append_hashes-bytes, append_assoc, append-nil))
]

length-key_or_seed : (b : SideData) (v2 : Bool) → IsSideData b → length (key_or_seed b v2) ≡ 32
length-key_or_seed b true v = v.seed_length
length-key_or_seed b false v = v.key_length

Reads-extra :
    (r b : SideData) (v2 : Bool)
    → IsSideData b
    → Reads
        (if v2 then read_extra_buffer else pure r.extra_buffer)
        (extra_bytes b v2)
        (if v2 then b.extra_buffer else r.extra_buffer)
Reads-extra r b true v = Reads-extra_buffer b v
Reads-extra r b false v = Reads-pure r.extra_buffer

stored-eq :
    (r b : SideData) (version : ℕ)
    → record b {
      coinbase_private_key_seed =
          (if ltb 1 version then key_or_seed b (ltb 1 version) else r.coinbase_private_key_seed);
      coinbase_private_key =
          (if ltb 1 version then r.coinbase_private_key else key_or_seed b (ltb 1 version));
      extra_buffer = (if ltb 1 version then b.extra_buffer else r.extra_buffer);
    }
      ≡ stored r b version
stored-eq r b version = elim (Bool-cases (ltb 1 version)) [ inl h ↦ rw h | inr h ↦ rw h ]

pub Reads-side_data :
    (r b : SideData) (version : ℕ)
    → r.uncles ≡ []
    → IsSideData b
    → Reads
        (side_data_from_reader r version)
        (side_data_bytes b (ltb 1 version))
        (stored r b version)
unfolding side_data_from_reader side_data_bytes
Reads-side_data r b version e v = Reads-bind _ _ _ _ (Reads-read_full 32 _ v.spend_length) (
    Reads-bind _ _ _ _ (Reads-read_full 32 _ v.view_length) (
      Reads-bind _ _ _ _ (Reads-read_full 32 _ (length-key_or_seed b (ltb 1 version) v)) (
        Reads-bind _ _ _ _ (Reads-read_full 32 _ v.parent_length) (
          Reads-bind _ _ _ _ (Reads-uvarint (length b.uncles) (omega (arith, v.uncle_count))) (
            Reads-bind _ _ _ _ (uncles_read) (
              Reads-bind _ _ _ _ (Reads-uvarint b.height v.height_fits) (
                Reads-bind _ _ _ _ (Reads-difficulty b.difficulty v.difficulty_fits) (
                  Reads-bind _ _ _ _ (Reads-difficulty b.cumulative_difficulty v.cumulative_fits) (
                    Reads-map _ _ _ (Reads-extra r b (ltb 1 version) v)
                      (stored-eq r b version))))))))))
  where
    uncles_read :
        Reads
          (read_hashes (signed_count (length b.uncles)) r.uncles)
          (hashes_bytes b.uncles)
          b.uncles
    uncles_read =
        rw (signed_count_small (length b.uncles) v.uncle_count, e)
          (Reads-hashes [] b.uncles v.uncle_lengths)

length-difficulty_bytes :
    (d : Difficulty)
    → IsU128 d
    → length (difficulty_bytes d) ≡ uvarint64_size d.lo + uvarint64_size d.hi
unfolding difficulty_bytes
length-difficulty_bytes d v = omega (
  arith,
  length-append (uvarint d.lo) (uvarint d.hi),
  length-uvarint d.lo v.lo_fits,
  length-uvarint d.hi v.hi_fits,
)

length-extra_buffer_bytes : (e : ExtraBuffer) → length (extra_buffer_bytes e) ≡ 16
unfolding extra_buffer_bytes
length-extra_buffer_bytes e = simp (length-append, length-le_bytes)

-- From version 2 on BufferLength is the length of the encoding; before, it counts 16 bytes too many.
length-side_data :
    (b : SideData) (v2 : Bool)
    → IsSideData b
    → length (side_data_bytes b v2) + (if v2 then 0 else 16) ≡ side_data_buffer_length b
unfolding side_data_bytes side_data_buffer_length
length-side_data b v2 v = elim (Bool-cases v2) [
  | inl h ↦ rw h (
      simp length-append (
        omega (
          arith,
          length-extra_buffer_bytes b.extra_buffer,
          hashes,
          length-uvarint (length b.uncles) (omega (arith, v.uncle_count)),
          length-uvarint b.height v.height_fits,
          length-difficulty_bytes b.difficulty v.difficulty_fits,
          length-difficulty_bytes b.cumulative_difficulty v.cumulative_fits,
          v.spend_length,
          v.view_length,
          v.seed_length,
          v.key_length,
          v.parent_length,
        )))
  | inr h ↦ rw h (
      simp length-append (
        omega (
          arith,
          length-extra_buffer_bytes b.extra_buffer,
          hashes,
          length-uvarint (length b.uncles) (omega (arith, v.uncle_count)),
          length-uvarint b.height v.height_fits,
          length-difficulty_bytes b.difficulty v.difficulty_fits,
          length-difficulty_bytes b.cumulative_difficulty v.cumulative_fits,
          v.spend_length,
          v.view_length,
          v.seed_length,
          v.key_length,
          v.parent_length,
        )))
]
  where
    hashes : length (hashes_bytes b.uncles) ≡ length b.uncles * 32
    hashes = length-hashes_bytes b.uncles v.uncle_lengths

-- For side data with fields of the lengths and widths of their Go types, fewer than 2 ^ 63 uncles and a
-- receiver without uncles, decoding what was encoded gives back what the version stores, whatever
-- follows; the encoding is as long as BufferLength from version 2 on, and 16 bytes shorter before.
pub side_data-round_trip :
    (r b : SideData) (version : ℕ) (rest : List ℕ)
    → r.uncles ≡ []
    → IsSideData b
    → (side_data_from_reader r version (side_data_append_binary [] b version ++ rest)
        ≡ ok (stored r b version, rest))
      × (length (side_data_append_binary [] b version) + (if ltb 1 version then 0 else 16)
          ≡ side_data_buffer_length b)
side_data-round_trip r b version rest e v =
    rw (side_data_append_binary-bytes [] b version)
      ((Reads-side_data r b version e v).run rest, length-side_data b (ltb 1 version) v)
