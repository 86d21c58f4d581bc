-- ===== src/SideChain/Chain/Backed.antt =====
-- The chain with its own verifyBlock: what a tip stands on.
use Prim.Native.Nat.{Ordering}
use p2pool_observer.Prelude.{ℕ, ◌^◌, ◌<◌, ◌≡◌, Option, some, List}
use p2pool_observer.Types.Uint128.{Difficulty, Uint128}
use p2pool_observer.SideChain.Share.{Share, PackedAddress}
use p2pool_observer.SideChain.Consensus.{Consensus}
use p2pool_observer.SideChain.State.{ChainState}
use p2pool_observer.SideChain.State.Health.{Grown}
use p2pool_observer.SideChain.AddBlock.Reachable.{
  Step, Reachable, Backed, Reachable-Backed, Step-Advance,
}
use p2pool_observer.SideChain.Chain.{chain_rules}
use p2pool_observer.SideChain.Chain.Lawful.{chain_rules-IsLawful}

module _ (keccak : List ℕ → List ℕ) (lib : Uint128) (c : Consensus)
    (difficulty_by_height : ℕ → Difficulty) (main_height : List ℕ → Option ℕ)
    (sort_func : (Share → Share → Ordering) → List Share → List Share)
    (ephemeral_public_key : PackedAddress → List ℕ → ℕ → List ℕ × ℕ) where
  -- In every state that an empty chain reaches by AddPoolBlock, BlockSeen, BlockUnsee and
  -- WatchMainChainBlock, in any order, the tip is verified and valid, and the template ids of its
  -- ancestors lead back through verified and valid blocks, each one height lower, to the genesis height
  -- or to a block so deep that verifyBlock skips its checks; heights are 64-bit numbers.
  pub chain-Backed :
      (s : ChainState) (t : ℕ)
      → Reachable
          (chain_rules keccak lib c difficulty_by_height main_height sort_func ephemeral_public_key)
          s
      → ((x : ℕ) → (s.heap x).side.height < 2 ^ 64)
      → s.chain_tip ≡ some t
      → Backed
          (chain_rules keccak lib c difficulty_by_height main_height sort_func ephemeral_public_key)
          s.heap
          (s.heap t)
  chain-Backed = Reachable-Backed _ (
      chain_rules-IsLawful keccak lib c difficulty_by_height main_height sort_func
        ephemeral_public_key)

  -- A verdict is never taken back: one call of AddPoolBlock, BlockSeen, BlockUnsee or
  -- WatchMainChainBlock that ends leaves every block's content but its indices into the parent's
  -- transactions, its flags once it is verified, and its depth does not fall.
  pub chain-Grown :
      (s s' : ChainState)
      → Step
          (chain_rules keccak lib c difficulty_by_height main_height sort_func ephemeral_public_key)
          s
          s'
      → (a : ℕ) → Grown (s.heap a) (s'.heap a)
  chain-Grown s s' step =
      (Step-Advance _
        (chain_rules-IsLawful keccak lib c difficulty_by_height main_height sort_func
          ephemeral_public_key)
        s s' step).grown
