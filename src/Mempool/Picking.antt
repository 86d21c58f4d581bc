-- ===== src/Mempool/Picking.antt =====
-- Mempool.Pick of p2pool/mempool/mempool.go.
mod State
pub mod Defects
unfoldable pub use State.*
