-- ===== src/Utils/Shuffle.antt =====
-- utils/xorshift64star.go, and ShuffleShares and ShuffleSequence of p2pool/sidechain/utils.go.
pub mod Permutes
use Prim.Native.Nat.{bit_xor}
use p2pool_observer.Prelude.{
  ℕ, zero, suc, ◌+◌, ◌-◌, ◌*◌, ◌/◌, ◌%◌, ◌^◌, ◌&&◌, List, ltb, ◌==◌, if◌then◌else◌, length,
}
use p2pool_observer.Codec.{Result, ok, err, panic, stuck}
use p2pool_observer.Types.Hash.{word}
use p2pool_observer.Arrays.{swap}

-- XorShift64Star
unfoldable pub xorshift64star : ℕ → ℕ
xorshift64star x =
    let x1 = bit_xor x (x / 2 ^ 12) in
    let x2 = bit_xor x1 (x1 * 2 ^ 25 % 2 ^ 64) in
    let x3 = bit_xor x2 (x2 / 2 ^ 27) in x3 * 0x2545F4914F6CDD1D % 2 ^ 64

-- The loop of ShuffleSequence with the rounds that are left: the high word of seed * (n - i) is below
-- n - i. The exchange is that of ShuffleShares.
unfoldable pub shuffle_loop {ℓ} : {T : Type ℓ} → ℕ → ℕ → ℕ → ℕ → List T → Result (List T)
shuffle_loop zero i n seed shares = ok shares
shuffle_loop (suc rounds) i n seed shares =
    let next = xorshift64star seed in
    elim (swap i (i + next * (n - i) / 2 ^ 64) shares) [
      | ok shares' ↦ shuffle_loop rounds (i + 1) n next shares'
      | err e ↦ err e
      | panic ↦ panic
      | stuck ↦ stuck
    ]

-- The first seed; `keccak` is Keccak-256, and Uint64 its first eight bytes.
unfoldable pub first_seed : (List ℕ → List ℕ) → List ℕ → ℕ
first_seed keccak private_key_seed =
    let seed = word (keccak private_key_seed) 0 in if seed == 0 then 1 else seed

-- ShuffleShares
unfoldable pub shuffle_shares {ℓ} :
    {T : Type ℓ} → (List ℕ → List ℕ) → ℕ → List ℕ → List T → Result (List T)
shuffle_shares keccak share_version private_key_seed shares =
    let n = length shares in
    if ltb 1 share_version && ltb 1 n
    then shuffle_loop (n - 1) 0 n (first_seed keccak private_key_seed) shares
    else ok shares
