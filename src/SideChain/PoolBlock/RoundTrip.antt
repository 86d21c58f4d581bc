-- ===== src/SideChain/PoolBlock/RoundTrip.antt =====
-- What PoolBlock.AppendBinaryFlags writes, FromReader and FromCompactReader read back.
use p2pool_observer.Prelude.{
  ℕ, ◌≡◌, refl, ap, Bool, some, List, [], ◌++◌, ltb, ==_refl, if◌then◌else◌, length,
}
use p2pool_observer.Codec.{ok, err, pure, ◌>>=◌, buffer_too_large}
use p2pool_observer.Codec.Reads.{Reads, Reads-bind, Reads-map, Reads-cast}
use p2pool_observer.Transaction.Extra.{ExtraTag, get_tag}
use p2pool_observer.Block.{Block}
use p2pool_observer.Block.RoundTrip.{
  IsBlock, decoded_block, block_bytes, block_append_binary_flags-bytes, Reads-block,
}
use p2pool_observer.SideChain.SideData.{SideData, side_data_from_reader}
use p2pool_observer.SideChain.SideData.RoundTrip.{
  IsSideData, stored, side_data_bytes, side_data_append_binary-bytes, Reads-side_data,
}
use p2pool_observer.SideChain.HardFork.{
  HardFork, NetworkType, network_major_version, p2pool_share_version,
}
use p2pool_observer.SideChain.PoolBlock.{
  PoolBlock, pool_block_max_template_size, pool_block_append_binary_flags, check_block,
  fill_private_keys, pool_block_from_reader,
}

share_bytes : PoolBlock → Bool → Bool → List ℕ
share_bytes b pruned compact =
    block_bytes b.main pruned compact ++ side_data_bytes b.side (ltb 1 b.cached_share_version)

pool_block_append_binary_flags-bytes :
    (b : PoolBlock) (pruned compact : Bool)
    → IsBlock b.main
    → pool_block_append_binary_flags [] b pruned compact ≡ (
        if ltb 131067 (length (share_bytes b pruned compact))
        then err buffer_too_large
        else ok (share_bytes b pruned compact))
unfolding pool_block_append_binary_flags share_bytes
pool_block_append_binary_flags-bytes b pruned compact v =
    rw
      (
        block_append_binary_flags-bytes [] b.main pruned compact v,
        pool_block_append_binary_flags,
        side_data_append_binary-bytes (block_bytes b.main pruned compact) b.side
            b.cached_share_version,
      )
      refl

-- The receiver's fields that the decoder sets.
abbrev pub decoded_share : PoolBlock → PoolBlock → Bool → Bool → PoolBlock
decoded_share r b pruned compact = record r {
  main = decoded_block r.main b.main pruned compact;
  cached_share_version = b.cached_share_version;
  side = stored r.side b.side b.cached_share_version;
}

Reads-check :
    (network : NetworkType) (main : Block) (t : ExtraTag)
    → network_major_version network main.coinbase.gen_height ≡ some main.major_version
    → get_tag 3 main.coinbase.extra ≡ some t
    → Reads (check_block network main) [] tt
unfolding check_block
Reads-check network main t m g = record { run = λ rest. rw (m, check_block, ==_refl, g) refl }

-- A share whose block and side data are well-formed, with the major version of its network at its
-- height, a merge mining tag and the share version of its time, has an encoding: AppendBinaryFlags
-- returns it, or the error for a buffer that is too large where it is longer than the limit. A receiver
-- whose lists are empty decodes it, whatever follows, to what the form and the version keep, with the
-- private key or its seed filled in.
pub pool_block-round_trip :
    (private_key_of : List ℕ → List ℕ → List ℕ) (network : NetworkType) (hard_forks : List HardFork)
    (r b : PoolBlock) (pruned compact : Bool) (t : ExtraTag) (rest : List ℕ)
    → r.main.coinbase.outputs ≡ []
    → r.main.coinbase.extra ≡ []
    → r.side.uncles ≡ []
    → IsBlock b.main
    → IsSideData b.side
    → network_major_version network b.main.coinbase.gen_height ≡ some b.main.major_version
    → get_tag 3 b.main.coinbase.extra ≡ some t
    → p2pool_share_version hard_forks b.main.timestamp ≡ b.cached_share_version
    → (buf : List ℕ) × (pool_block_append_binary_flags [] b pruned compact
        ≡ (if ltb pool_block_max_template_size (length buf) then err buffer_too_large else ok buf))
      × (pool_block_from_reader private_key_of network hard_forks compact r (buf ++ rest)
          ≡ ok (fill_private_keys private_key_of (decoded_share r b pruned compact), rest))
unfolding pool_block_from_reader share_bytes
pool_block-round_trip key network forks r b pruned compact t rest o x u vb vs m g s = (
  share_bytes b pruned compact,
  pool_block_append_binary_flags-bytes b pruned compact vb,
  reads.run rest,
)
  where
    finish : ℕ → SideData → PoolBlock
    finish version side = fill_private_keys key (record r {
      main = decoded_block r.main b.main pruned compact;
      cached_share_version = version;
      side = side;
    })

    side_reads :
        Reads
          (side_data_from_reader r.side (p2pool_share_version forks b.main.timestamp) >>= λ side.
            pure (finish (p2pool_share_version forks b.main.timestamp) side))
          (side_data_bytes b.side (ltb 1 b.cached_share_version))
          (fill_private_keys key (decoded_share r b pruned compact))
    side_reads =
        Reads-cast
          (ap
            (λ version. side_data_from_reader r.side version >>= λ side. pure (finish version side))
            s)
          refl
          (Reads-map _ (finish b.cached_share_version) _
            (Reads-side_data r.side b.side b.cached_share_version u vs) refl)

    reads :
        Reads
          (pool_block_from_reader key network forks compact r)
          (block_bytes b.main pruned compact
            ++ side_data_bytes b.side (ltb 1 b.cached_share_version))
          (fill_private_keys key (decoded_share r b pruned compact))
    reads = Reads-bind _ _ _ _ (Reads-block r.main b.main vb pruned compact o x) (
        Reads-bind _ _ [] _ (Reads-check network (decoded_block r.main b.main pruned compact) t m g)
          side_reads)
