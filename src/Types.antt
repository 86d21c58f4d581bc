-- ===== src/Types.antt =====
-- types/: 128-bit difficulties and 32-byte hashes.
pub mod Uint128
pub mod Difficulty
pub mod ProofOfWork
pub mod Hash
pub mod Protocol
