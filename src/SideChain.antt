-- ===== src/SideChain.antt =====
-- p2pool/sidechain/: the share chain.
pub mod SideData
pub mod HardFork
pub mod Share
pub mod Penalty
pub mod PoolBlock
pub mod Consensus
pub mod Verdict
pub mod Uncles
pub mod Verify
pub mod Window
pub mod Shares
pub mod Longer
pub mod NextDifficulty
pub mod Reward
pub mod Outputs
pub mod State
pub mod Prune
pub mod Tip
pub mod VerifyLoop
pub mod Depths
pub mod AddBlock
pub mod Missing
pub mod Possible
pub mod Chain
pub mod External
