-- ===== src/SideChain/Shares/Order.antt =====
-- The consensus order of shares is that of the numbers that the keys are.
use Prim.Native.Nat.{compare, Ordering}
use p2pool_observer.Prelude.{
  ℕ, zero, suc, ◌+◌, ◌*◌, ◌^◌, ◌<◌, ◌≡◌, ap, ap₂, ◌∙◌, arith, true, false, inl, inr, none, some,
  List, [], ◌∷◌, ◌==◌, length, get_elem?, take, drop, All, Bool-cases,
}
use p2pool_observer.Codec.{le_value, IsByte}
use p2pool_observer.Types.Hash.{bytes_eq}
use p2pool_observer.Types.Hash.Order.{
  bytes_eq→eq, le_value-split, le_value-lt, take-all, compare_hash-compare,
}
use p2pool_observer.SideChain.Share.{Share, PackedAddress}
use p2pool_observer.SideChain.Shares.{same_address, compare_packed, last_byte, compare_shares}

-- The keys of an address are 32 bytes each.
pub record IsAddress (a : PackedAddress) : Type 0 where
  pub spend_length : length a.spend ≡ 32
  pub view_length : length a.view ≡ 32
  pub spend_bytes : All IsByte a.spend
  pub view_bytes : All IsByte a.view

-- The spend key in front of the view key.
abbrev pub address_number : PackedAddress → ℕ
address_number a = le_value a.spend * 2 ^ 256 + le_value a.view

pub same_address-eq : (a b : PackedAddress) → same_address a b ≡ true → a ≡ b
unfolding same_address
same_address-eq a b e =
    let spends : bytes_eq a.spend b.spend ≡ true = ground (arith, e) in
    let views : bytes_eq a.view b.view ≡ true = ground (arith, e) in
    ap₂ (λ s v. record { spend = s; view = v }) (bytes_eq→eq _ _ spends) (bytes_eq→eq _ _ views)

last_digit :
    (n : ℕ) (h : List ℕ)
    → length h ≡ suc n
    → le_value (drop n h) ≡ elim (get_elem? h n) [ none ↦ 0 | some v ↦ v ]
unfolding le_value
last_digit zero [] l = absurd (omega arith)
last_digit zero (b ∷ []) l = omega arith
last_digit zero (b ∷ c ∷ h) l = absurd (omega arith)
last_digit (suc n) [] l = absurd (omega arith)
last_digit (suc n) (b ∷ h) l = last_digit n h (omega arith)

module _ (a : PackedAddress) (v : IsAddress a) where
  spend-split : le_value a.spend ≡ le_value (take 31 a.spend) + 256 ^ 31 * last_byte a
  unfolding last_byte
  spend-split =
      le_value-split 31 a.spend (omega (arith, v.spend_length))
      ∙ ap (λ t. le_value (take 31 a.spend) + 256 ^ 31 * t) (last_digit 31 a.spend v.spend_length)

  low_lt : le_value (take 31 a.spend) < 256 ^ 31
  low_lt = le_value-lt 31 a.spend v.spend_bytes (omega (arith, v.spend_length))

  pub view_lt : le_value a.view < 2 ^ 256
  view_lt =
      let e = take-all 32 a.view v.view_length in
      omega
        (arith, le_value-lt 32 a.view v.view_bytes (omega (arith, v.view_length)), ap le_value e)

-- A number of two digits.
pairs :
    (m n p q : ℕ)
    → n < 2 ^ 256
    → q < 2 ^ 256
    → elim (compare m p) [
      | Ordering.lt ↦ Ordering.lt
      | Ordering.gt ↦ Ordering.gt
      | Ordering.eq ↦ compare n q
    ]
      ≡ compare (m * 2 ^ 256 + n) (p * 2 ^ 256 + q)
pairs m n p q hn hq = ground arith

tops :
    (l m t s n q : ℕ)
    → l < 256 ^ 31
    → m < 256 ^ 31
    → n < 2 ^ 256
    → q < 2 ^ 256
    → (t == s) ≡ false
    → compare t s ≡ compare ((l + 256 ^ 31 * t) * 2 ^ 256 + n) ((m + 256 ^ 31 * s) * 2 ^ 256 + q)
tops l m t s n q hl hm hn hq ne = ground arith

-- The function that Sort orders shares by compares the spend keys, and where these are equal the view
-- keys, as little-endian numbers, for addresses of two keys of 32 bytes; the test of the last bytes
-- that it makes first does not change the order.
pub compare_shares-compare :
    (a b : Share)
    → IsAddress a.address
    → IsAddress b.address
    → compare_shares a b ≡ compare (address_number a.address) (address_number b.address)
unfolding compare_shares compare_packed
compare_shares-compare a b va vb = elim (Bool-cases (last_byte a.address == last_byte b.address)) [
  | inr differ ↦
      rw (differ, compare_shares, spend-split a.address va, spend-split b.address vb)
        (tops _ _ _ _ _ _ (low_lt a.address va) (low_lt b.address vb) (view_lt a.address va)
          (view_lt b.address vb) differ)
  | inl same_byte ↦ elim (Bool-cases (same_address a.address b.address)) [
    | inl same ↦
        rw (same_byte, compare_shares, same)
          (itself _ _ (ap (λ k. address_number k) (same_address-eq _ _ same)))
    | inr distinct ↦
        rw (same_byte, compare_shares, distinct)
          (ap₂
              (λ o k. elim o [
                | Ordering.lt ↦ Ordering.lt
                | Ordering.gt ↦ Ordering.gt
                | Ordering.eq ↦ k
              ])
              (compare_hash-compare _ _ va.spend_length vb.spend_length va.spend_bytes
                vb.spend_bytes)
              (compare_hash-compare _ _ va.view_length vb.view_length va.view_bytes vb.view_bytes)
            ∙ pairs _ _ _ _ (view_lt a.address va) (view_lt b.address vb))
  ]
]
  where
    itself : (m n : ℕ) → m ≡ n → Ordering.eq ≡ compare m n
    itself m n h = ground arith
