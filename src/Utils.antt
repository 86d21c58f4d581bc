-- ===== src/Utils.antt =====
-- utils/ and monero/randomx/: numbers, the circular buffer and the seed heights.
pub mod Number
pub mod SeedHeight
pub mod Shuffle
pub mod NthElement
pub mod CircularBuffer
