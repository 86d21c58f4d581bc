-- ===== src/Utils/Shuffle/Permutes.antt =====
-- The shuffle moves shares, and neither loses nor repeats one.
use mathlib.Core.List.{Perm}
use mathlib.Core.List.Perm
use p2pool_observer.Prelude.{
  ℕ, zero, suc, ◌+◌, ◌-◌, ◌*◌, ◌/◌, ◌^◌, ◌<◌, ◌≡◌, refl, ◌∙◌, arith, ◌&&◌, inl, inr, List, ltb,
  length, Bool-cases,
}
use p2pool_observer.Codec.{ok}
use p2pool_observer.Arrays.{swap_lem}
use p2pool_observer.Utils.Shuffle.{xorshift64star, shuffle_loop, first_seed, shuffle_shares}

xorshift64star_lt : (x : ℕ) → xorshift64star x < 2 ^ 64
unfolding xorshift64star
xorshift64star_lt x = omega arith

-- The index that is drawn from the rest of the slice.
drawn_lt : (seed m : ℕ) → seed < 2 ^ 64 → 0 < m → seed * m / 2 ^ 64 < m
drawn_lt seed m h p = grind arith

module _ {ℓ} {T : Type ℓ} where
  shuffle_loop-perm :
      (rounds i n seed : ℕ) (s : List T)
      → length s ≡ n
      → i + rounds < n
      → (r : List T) × (shuffle_loop rounds i n seed s ≡ ok r) × Perm r s
  unfolding shuffle_loop
  shuffle_loop-perm zero i n seed s l h = (s, refl, Perm.rfl)
  shuffle_loop-perm (suc rounds) i n seed s l h =
      let next = xorshift64star seed in
      let k = next * (n - i) / 2 ^ 64 in
      let inside : k < n - i = drawn_lt next (n - i) (xorshift64star_lt seed) (omega arith) in
      let (s', e, p, l') = swap_lem i (i + k) s (omega arith) (omega (arith, inside)) in
      let (r, e', p') = shuffle_loop-perm rounds (i + 1) n next s' (l' ∙ l) (omega arith) in
      (r, (rw (e, shuffle_loop) e'), Perm.trans p' p)

  -- ShuffleShares never indexes out of range, whatever the hash: it returns a permutation of the shares.
  pub shuffle_shares-perm :
      (keccak : List ℕ → List ℕ) (share_version : ℕ) (private_key_seed : List ℕ) (s : List T)
      → (r : List T) × (shuffle_shares keccak share_version private_key_seed s ≡ ok r) × Perm r s
  unfolding shuffle_shares
  shuffle_shares-perm keccak version seed s =
      elim (Bool-cases (ltb 1 version && ltb 1 (length s))) [
        | inl y ↦
            let (r, e, p) =
              shuffle_loop-perm (length s - 1) 0 (length s) (first_seed keccak seed) s refl
                (ground arith) in
            (r, (rw y e), p)
        | inr n ↦ (s, (rw n refl), Perm.rfl)
      ]
