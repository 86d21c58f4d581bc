-- ===== src/SideChain/Outputs.antt =====
-- CalculateOutputs of p2pool/sidechain/utils.go: the outputs that a share has to have.
pub mod Verified
use p2pool_observer.Prelude.{
  ℕ, ◌+◌, Bool, true, false, Option, none, some, List, [], ◌∷◌, ◌==◌, if◌then◌else◌, length,
}
use p2pool_observer.Codec.{Result, ok}
use p2pool_observer.Types.Uint128.{Uint128}
use p2pool_observer.Utils.NthElement.{then_result}
use p2pool_observer.Transaction.Output.{Output}
use p2pool_observer.SideChain.Share.{Share, PackedAddress}
use p2pool_observer.SideChain.Reward.{split_reward}
use p2pool_observer.SideChain.PoolBlock.{PoolBlock, transaction_output_type}

-- `ephemeral_public_key` is the cache's function of an address, the block's private key and an index.
module _ (ephemeral_public_key : PackedAddress → List ℕ → ℕ → List ℕ × ℕ) where
  -- The work on the outputs from an index on, which is done in parallel; a missing reward ends it.
  unfoldable pub outputs_from : PoolBlock → ℕ → List Share → List ℕ → List Output
  outputs_from b i [] rewards = []
  outputs_from b i (s ∷ ss) [] = []
  outputs_from b i (s ∷ ss) (r ∷ rs) =
      let key = ephemeral_public_key s.address b.side.coinbase_private_key i in
      record {
        index = i;
        reward = r;
        ephemeral_public_key = key.0;
        output_type = transaction_output_type b;
        view_tag = key.1;
      }
      ∷ outputs_from b (i + 1) ss rs

  -- With the shares and the rewards; nil outputs are `none`.
  unfoldable pub outputs_of :
      PoolBlock → List Share → ℕ → Option (List ℕ) → Option (List Output) × ℕ
  outputs_of b shares bottom_height none = (none, 0)
  outputs_of b shares bottom_height (some rewards) =
      if length rewards == length shares
      then (some (outputs_from b 0 shares rewards), bottom_height)
      else (none, 0)

  -- CalculateOutputs, with GetShares as a function of the block: the outputs and the bottom height.
  unfoldable pub calculate_outputs :
      Uint128
      → (PoolBlock → Result (List Share × ℕ))
      → PoolBlock
      → Result (Option (List Output) × ℕ)
  calculate_outputs lib get_shares b =
      then_result (get_shares b)
        (λ r. ok (outputs_of b r.0 r.1 (split_reward lib b.main.coinbase.total_reward r.0)))

-- The assignment of the outputs in PreProcessBlockWithOutputs.
unfoldable pub with_outputs : PoolBlock → List Output → PoolBlock
with_outputs b outputs = record b {
  main = record b.main { coinbase = record b.main.coinbase { outputs = outputs } };
}
