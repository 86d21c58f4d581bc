-- ===== src/Utils/SeedHeight.antt =====
-- SeedHeight and SeedHeights of monero/randomx/randomx.go: the block whose id seeds the hash.
use p2pool_observer.Prelude.{ℕ, ◌+◌, ◌-◌, ◌%◌, ◌^◌, ◌≤◌, ◌<◌, ◌≡◌, ◌⊎◌, arith, leb, if◌then◌else◌}

abbrev pub seed_hash_epoch_lag : ℕ
seed_hash_epoch_lag = 64

abbrev pub seed_hash_epoch_blocks : ℕ
seed_hash_epoch_blocks = 2048

-- SeedHeight; `& ^uint64(2048 - 1)` clears the low eleven bits.
unfoldable pub seed_height : ℕ → ℕ
seed_height height =
    let n = height - seed_hash_epoch_lag - 1 in
    if leb height (seed_hash_epoch_blocks + seed_hash_epoch_lag)
    then 0
    else n - n % seed_hash_epoch_blocks

-- SeedHeights; the sum wraps.
unfoldable pub seed_heights : ℕ → ℕ × ℕ
seed_heights height = (seed_height height, seed_height ((height + seed_hash_epoch_lag) % 2 ^ 64))

-- The seed height is 0 up to height 2112; from there on it is a multiple of 2048 that lies 65 to 2112
-- blocks below the height.
seed_height-epoch :
    (height : ℕ)
    → ((height ≤ 2112) × (seed_height height ≡ 0))
      ⊎ ((seed_height height % 2048 ≡ 0)
          × (seed_height height + 65 ≤ height)
          × (height ≤ seed_height height + 2112))
unfolding seed_height
seed_height-epoch height = ground arith

-- The next seed height is the seed height or one epoch later, for heights that do not overflow.
seed_heights-next :
    (height : ℕ)
    → height < 2 ^ 63
    → ((seed_heights height).1 ≡ (seed_heights height).0)
      ⊎ ((seed_heights height).1 ≡ (seed_heights height).0 + 2048)
unfolding seed_heights seed_height
seed_heights-next height h = ground arith
