-- ===== src/Types/Protocol.antt =====
-- p2pool/types/protocol.go and version.go: what a peer supports.
use p2pool_observer.Prelude.{
  ℕ, ◌+◌, ◌*◌, ◌/◌, ◌%◌, ◌^◌, ◌≤◌, ◌<◌, ◌≡◌, arith, Bool, true, false, ◌||◌, ◌==◌, leb,
}

-- SemanticVersion.Major and Minor of a uint32; ProtocolVersion and SoftwareVersion share them.
unfoldable pub major : ℕ → ℕ
major v = v / 2 ^ 16 % 2 ^ 16

unfoldable pub minor : ℕ → ℕ
minor v = v % 2 ^ 16

abbrev pub protocol_version_0_0 : ℕ
protocol_version_0_0 = 0 * 2 ^ 16 + 0

abbrev pub protocol_version_1_0 : ℕ
protocol_version_1_0 = 1 * 2 ^ 16 + 0

abbrev pub protocol_version_1_1 : ℕ
protocol_version_1_1 = 1 * 2 ^ 16 + 1

abbrev pub protocol_version_1_2 : ℕ
protocol_version_1_2 = 1 * 2 ^ 16 + 2

-- The values of ProtocolFeature; `other` is any value that has no name.
pub data ProtocolFeature : Type 0 where
  peer_information_receive peer_information_exchange pruned_broadcast : ProtocolFeature
  compact_broadcast block_notify other : ProtocolFeature

pub record PeerVersionInformation : Type 0 where
  pub protocol : ℕ
  pub software_version : ℕ
  pub software_id : ℕ

-- PeerVersionInformation.SupportsFeature
unfoldable pub supports_feature : PeerVersionInformation → ProtocolFeature → Bool
supports_feature i peer_information_receive =
    i.protocol == protocol_version_0_0 || leb protocol_version_1_0 i.protocol
supports_feature i peer_information_exchange = leb protocol_version_1_0 i.protocol
supports_feature i pruned_broadcast =
    i.protocol == protocol_version_0_0 || leb protocol_version_1_0 i.protocol
supports_feature i compact_broadcast = leb protocol_version_1_1 i.protocol
supports_feature i block_notify = leb protocol_version_1_2 i.protocol
supports_feature i other = false

-- A protocol version 1.0 or later never loses a feature as it grows: what one peer supports, a peer
-- with a later version supports too.
supports_feature-later :
    (i j : PeerVersionInformation) (feature : ProtocolFeature)
    → 1 ≤ major i.protocol
    → i.protocol < 2 ^ 32
    → i.protocol ≤ j.protocol
    → supports_feature i feature ≡ true
    → supports_feature j feature ≡ true
unfolding supports_feature major
supports_feature-later i j peer_information_receive p h le s = ground arith
supports_feature-later i j peer_information_exchange p h le s = ground arith
supports_feature-later i j pruned_broadcast p h le s = ground arith
supports_feature-later i j compact_broadcast p h le s = ground arith
supports_feature-later i j block_notify p h le s = ground arith
supports_feature-later i j other p h le s = s
