-- ===== src/Transaction.antt =====
-- monero/transaction/: the coinbase transaction, its outputs and its extra tags.
pub mod Output
pub mod Extra
pub mod Coinbase
