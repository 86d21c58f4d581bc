-- ===== src/Types/Hash/Order.antt =====
-- The consensus order of hashes is that of the little-endian numbers.
use Prim.Native.Nat.{compare, Ordering}
use p2pool_observer.Prelude.{
  ℕ, zero, suc, ◌+◌, ◌*◌, ◌^◌, ◌<◌, ◌≤◌, ◌-◌, ◌≡◌, refl, sym, ap, ◌∙◌, arith, true, List, [], ◌∷◌,
  take, drop, length, All, ltb, if◌then◌else◌,
}
use native.Mathlib.Nat.{pow-suc}
use p2pool_observer.Codec.{le_value, IsByte}
use p2pool_observer.Types.Hash.{word, compare_hash, bytes_eq}

pub bytes_eq→eq : (xs ys : List ℕ) → bytes_eq xs ys ≡ true → xs ≡ ys
unfolding bytes_eq
bytes_eq→eq [] [] h = refl
bytes_eq→eq [] (y ∷ ys) h = cc
bytes_eq→eq (x ∷ xs) [] h = cc
bytes_eq→eq (x ∷ xs) (y ∷ ys) h = ground (arith, bytes_eq→eq xs ys)

pub bytes_eq_refl : (xs : List ℕ) → bytes_eq xs xs ≡ true
unfolding bytes_eq
bytes_eq_refl [] = refl
bytes_eq_refl (x ∷ xs) = ground (arith, bytes_eq_refl xs)

pub le_value-split :
    (n : ℕ) (h : List ℕ)
    → n ≤ length h
    → le_value h ≡ le_value (take n h) + 256 ^ n * le_value (drop n h)
unfolding le_value
le_value-split zero h k = omega arith
le_value-split (suc n) [] k = absurd (omega arith)
le_value-split (suc n) (b ∷ h) k = omega (
  arith,
  ap (λ m. 256 * m) (le_value-split n h (omega arith)),
  ap (λ m. m * le_value (drop n h)) (pow-suc 256 n),
)

pub le_value-lt : (n : ℕ) (h : List ℕ) → All IsByte h → n ≤ length h → le_value (take n h) < 256 ^ n
unfolding le_value
le_value-lt zero h v k = omega arith
le_value-lt (suc n) [] v k = absurd (omega arith)
le_value-lt (suc n) (b ∷ h) (v, vs) k = omega (arith, le_value-lt n h vs (omega arith))

length-drop : (n : ℕ) (h : List ℕ) → length (drop n h) ≡ length h - n
length-drop zero h = omega arith
length-drop (suc n) [] = omega arith
length-drop (suc n) (b ∷ h) = omega (arith, length-drop n h)

drop-IsByte : (n : ℕ) (h : List ℕ) → All IsByte h → All IsByte (drop n h)
drop-IsByte zero h v = v
drop-IsByte (suc n) [] v = tt
drop-IsByte (suc n) (b ∷ h) (v, vs) = drop-IsByte n h vs

drop-nil : (m : ℕ) → drop {A = ℕ} m [] ≡ []
drop-nil zero = refl
drop-nil (suc m) = refl

drop-drop : (m n : ℕ) (h : List ℕ) → drop m (drop n h) ≡ drop (n + m) h
drop-drop m zero h = ap (λ k. drop k h) (omega arith)
drop-drop m (suc n) [] = drop-nil m ∙ sym (drop-nil (suc n + m))
drop-drop m (suc n) (b ∷ h) =
    drop-drop m n h ∙ ap (λ k. drop k (b ∷ h)) (let e : suc (n + m) ≡ suc n + m = omega arith in e)

pub take-all : (n : ℕ) (h : List ℕ) → length h ≡ n → take n h ≡ h
take-all zero [] e = refl
take-all zero (b ∷ h) e = absurd (omega arith)
take-all (suc n) [] e = refl
take-all (suc n) (b ∷ h) e = ap (◌∷◌ b) (take-all n h (omega arith))

-- The words of a hash are its 64-bit digits.
words-value :
    (h : List ℕ)
    → length h ≡ 32
    → le_value h ≡ word h 0 + 2 ^ 64 * (word h 1 + 2 ^ 64 * (word h 2 + 2 ^ 64 * word h 3))
unfolding word
words-value h l =
    let d8 : length (drop 8 h) ≡ 24 = omega (arith, length-drop 8 h) in
    let d16 : length (drop 16 h) ≡ 16 = omega (arith, length-drop 16 h) in
    let d24 : length (drop 24 h) ≡ 8 = omega (arith, length-drop 24 h) in
    let s2 =
      le_value-split 8 (drop 8 h) (omega arith)
      ∙ ap (λ t. le_value (take 8 (drop 8 h)) + 256 ^ 8 * le_value t) (drop-drop 8 8 h) in
    let s3 =
      le_value-split 8 (drop 16 h) (omega arith)
      ∙ ap (λ t. le_value (take 8 (drop 16 h)) + 256 ^ 8 * le_value t) (drop-drop 8 16 h) in
    let s4 = ap le_value (take-all 8 (drop 24 h) d24) in
    omega (arith, le_value-split 8 h (omega arith), s2, s3, s4)

word-lt : (h : List ℕ) (i : ℕ) → All IsByte h → 8 * i + 8 ≤ length h → word h i < 2 ^ 64
unfolding word
word-lt h i v l =
    le_value-lt 8 (drop (8 * i) h) (drop-IsByte (8 * i) h v) (omega (arith, length-drop (8 * i) h))

-- Four digits decide from the highest down.
compare_digits :
    (a0 a1 a2 a3 b0 b1 b2 b3 : ℕ)
    → a0 < 2 ^ 64
    → a1 < 2 ^ 64
    → a2 < 2 ^ 64
    → b0 < 2 ^ 64
    → b1 < 2 ^ 64
    → b2 < 2 ^ 64
    → (if ltb a3 b3
        then Ordering.lt
        else if ltb b3 a3
        then Ordering.gt
        else if ltb a2 b2
        then Ordering.lt
        else if ltb b2 a2
        then Ordering.gt
        else if ltb a1 b1
        then Ordering.lt
        else if ltb b1 a1
        then Ordering.gt
        else if ltb a0 b0
        then Ordering.lt
        else if ltb b0 a0
        then Ordering.gt
        else Ordering.eq)
      ≡ compare
          (a0 + 2 ^ 64 * (a1 + 2 ^ 64 * (a2 + 2 ^ 64 * a3)))
          (b0 + 2 ^ 64 * (b1 + 2 ^ 64 * (b2 + 2 ^ 64 * b3)))
compare_digits a0 a1 a2 a3 b0 b1 b2 b3 h0 h1 h2 k0 k1 k2 = ground arith

-- Hash.Compare orders hashes of 32 bytes as the numbers that they are in little-endian order.
pub compare_hash-compare :
    (a b : List ℕ)
    → length a ≡ 32
    → length b ≡ 32
    → All IsByte a
    → All IsByte b
    → compare_hash a b ≡ compare (le_value a) (le_value b)
unfolding compare_hash
compare_hash-compare a b la lb va vb =
    rw (words-value a la, words-value b lb)
      (compare_digits (word a 0) (word a 1) (word a 2) (word a 3) (word b 0) (word b 1) (word b 2)
        (word b 3) (word-lt a 0 va (omega arith)) (word-lt a 1 va (omega arith))
        (word-lt a 2 va (omega arith)) (word-lt b 0 vb (omega arith)) (word-lt b 1 vb (omega arith))
        (word-lt b 2 vb (omega arith)))
