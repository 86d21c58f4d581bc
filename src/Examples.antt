-- ===== src/Examples.antt =====
-- Concrete values at which the theorems apply.
mod Numbers
mod Transactions
mod Shares
mod Mempools
mod Versions
mod Blocks
mod Shuffles
mod Chain
mod Compaction
mod Choice
mod Selection
mod Windows
mod Growing
mod Uncles
mod Verifying
use p2pool_observer.Prelude.{ℕ, List, replicate}

abbrev pub some_key : List ℕ
some_key = replicate 32 7

abbrev pub other_key : List ℕ
other_key = replicate 32 9
