-- ===== src/SideChain/SideData.antt =====
-- p2pool/sidechain/sidedata.go: the part of a share that only the side chain reads.
pub mod RoundTrip
use p2pool_observer.Prelude.{
  ℕ, zero, suc, ◌+◌, ◌*◌, Bool, List, [], ◌∷◌, ◌++◌, ltb, if◌then◌else◌, length,
}
use p2pool_observer.Codec.{
  Reader, ◌>>=◌, pure, read_full, uvarint, read_uvarint, le_bytes, read_le, signed_count,
}
use p2pool_observer.Codec.Hashes.{append_hashes, read_hashes}
use p2pool_observer.Utils.Number.{uvarint64_size}
use p2pool_observer.Types.Uint128.{Difficulty}

abbrev pub share_version_none : ℕ
share_version_none = 0

abbrev pub share_version_v1 : ℕ
share_version_v1 = 1

abbrev pub share_version_v2 : ℕ
share_version_v2 = 2

pub record ExtraBuffer : Type 0 where
  pub software_id : ℕ
  pub software_version : ℕ
  pub random_number : ℕ
  pub side_chain_extra_nonce : ℕ

-- PublicKey is the pair of the spend and the view key.
pub record SideData : Type 0 where
  pub spend_public_key : List ℕ
  pub view_public_key : List ℕ
  pub coinbase_private_key_seed : List ℕ
  pub coinbase_private_key : List ℕ
  pub parent : List ℕ
  pub uncles : List (List ℕ)
  pub height : ℕ
  pub difficulty : Difficulty
  pub cumulative_difficulty : Difficulty
  pub extra_buffer : ExtraBuffer

-- SideData.BufferLength
unfoldable pub side_data_buffer_length : SideData → ℕ
side_data_buffer_length b =
    32
    + 32
    + 32
    + 32
    + (uvarint64_size (length b.uncles) + length b.uncles * 32)
    + uvarint64_size b.height
    + (uvarint64_size b.difficulty.lo + uvarint64_size b.difficulty.hi)
    + (uvarint64_size b.cumulative_difficulty.lo + uvarint64_size b.cumulative_difficulty.hi)
    + 4 * 4

unfoldable pub append_extra_buffer : List ℕ → ExtraBuffer → List ℕ
append_extra_buffer buf e =
    (((buf ++ le_bytes 4 e.software_id) ++ le_bytes 4 e.software_version)
      ++ le_bytes 4 e.random_number)
    ++ le_bytes 4 e.side_chain_extra_nonce

-- SideData.AppendBinary
unfoldable pub side_data_append_binary : List ℕ → SideData → ℕ → List ℕ
side_data_append_binary buf b version =
    let keys = (buf ++ b.spend_public_key) ++ b.view_public_key in
    let seeded =
      keys
      ++ (if ltb share_version_v1 version
          then b.coinbase_private_key_seed
          else b.coinbase_private_key) in
    let counted = (seeded ++ b.parent) ++ uvarint (length b.uncles) in
    let heights = append_hashes counted b.uncles ++ uvarint b.height in
    let current = (heights ++ uvarint b.difficulty.lo) ++ uvarint b.difficulty.hi in
    let cumulative =
      (current ++ uvarint b.cumulative_difficulty.lo) ++ uvarint b.cumulative_difficulty.hi in
    if ltb share_version_v1 version
    then append_extra_buffer cumulative b.extra_buffer
    else cumulative

unfoldable pub read_difficulty : Reader Difficulty
read_difficulty = do lo ← read_uvarint; hi ← read_uvarint; pure (record { lo = lo; hi = hi })

-- The source wraps its errors in a message; the model keeps the error that is wrapped.
unfoldable pub read_extra_buffer : Reader ExtraBuffer
read_extra_buffer = do
  software_id ← read_le 4
  software_version ← read_le 4
  random_number ← read_le 4
  side_chain_extra_nonce ← read_le 4
  pure (record {
    software_id = software_id;
    software_version = software_version;
    random_number = random_number;
    side_chain_extra_nonce = side_chain_extra_nonce;
  })

-- SideData.FromReader on the receiver `b`: from version 2 on it reads the seed and the extra buffer,
-- before that the private key.
unfoldable pub side_data_from_reader : SideData → ℕ → Reader SideData
side_data_from_reader b version = do
  spend ← read_full 32
  view ← read_full 32
  key_or_seed ← read_full 32
  parent ← read_full 32
  uncle_count ← read_uvarint
  uncles ← read_hashes (signed_count uncle_count) b.uncles
  height ← read_uvarint
  difficulty ← read_difficulty
  cumulative ← read_difficulty
  extra ← if ltb share_version_v1 version then read_extra_buffer else pure b.extra_buffer
  pure (record {
    spend_public_key = spend;
    view_public_key = view;
    coinbase_private_key_seed =
        (if ltb share_version_v1 version then key_or_seed else b.coinbase_private_key_seed);
    coinbase_private_key =
        (if ltb share_version_v1 version then b.coinbase_private_key else key_or_seed);
    parent = parent;
    uncles = uncles;
    height = height;
    difficulty = difficulty;
    cumulative_difficulty = cumulative;
    extra_buffer = extra;
  })
