-- ===== src/SideChain/Share.antt =====
-- p2pool/sidechain/share.go and monero/address/packed.go: who earns what.
use p2pool_observer.Prelude.{ℕ, List}
use p2pool_observer.Types.Uint128.{Difficulty}

-- PackedAddress: 0 is the spend and 1 the view public key.
pub record PackedAddress : Type 0 where
  pub spend : List ℕ
  pub view : List ℕ

pub record Share : Type 0 where
  pub address : PackedAddress
  pub weight : Difficulty
