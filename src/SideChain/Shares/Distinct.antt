-- ===== src/SideChain/Shares/Distinct.antt =====
-- Compact leaves every address once, in the consensus order.
use Prim.Native.Nat.{compare, Ordering}
use p2pool_observer.Prelude.{
  ℕ, suc, ◌<◌, ◌≤◌, ◌≡◌, ◌≢◌, refl, sym, ap, ap₂, subst, ◌∙◌, arith, true, false, ◌⊎◌, inl, inr,
  List, [], ◌∷◌, ltb, ◌==◌, length, All, Bool-cases,
}
use p2pool_observer.Codec.{le_value, IsByte}
use p2pool_observer.Types.Uint128.{Difficulty}
use p2pool_observer.Types.Difficulty.{add}
use p2pool_observer.Types.Hash.Order.{bytes_eq_refl}
use p2pool_observer.SideChain.Share.{Share, PackedAddress}
use p2pool_observer.SideChain.Shares.{
  same_address, compare_shares, compact_loop, compact_sorted, compact,
}
use p2pool_observer.SideChain.Shares.Order.{
  IsAddress, address_number, same_address-eq, compare_shares-compare, view_lt,
}

abbrev number : Share → ℕ
number s = address_number s.address

-- No share's number is below the one before, the first one's not below `n`.
NotBelow : ℕ → List Share → Type 0
NotBelow n [] = Unit {0}
NotBelow n (s ∷ ss) = (n ≤ number s) × NotBelow (number s) ss

-- Every share's number is above the one before, the first one's above `n`.
unfoldable pub Above : ℕ → List Share → Type 0
Above n [] = Unit {0}
Above n (s ∷ ss) = (n < number s) × Above (number s) ss

-- The shares have different addresses, in ascending order.
unfoldable pub Rising : List Share → Type 0
Rising [] = Unit {0}
Rising (s ∷ ss) = Above (number s) ss

-- What a sort promises: no share is above the next one.
pub data NoneAbove : List Share → Type 0 where
  nothing : NoneAbove []
  single : {s : Share} → NoneAbove (s ∷ [])
  next :
      {s t : Share} {ss : List Share}
      → compare_shares s t ≢ Ordering.gt
      → NoneAbove (t ∷ ss)
      → NoneAbove (s ∷ t ∷ ss)

NoneAbove-NotBelow :
    (s : Share) (ss : List Share)
    → All (λ t. IsAddress t.address) (s ∷ ss)
    → NoneAbove (s ∷ ss)
    → NotBelow (number s) ss
unfolding NotBelow
NoneAbove-NotBelow s [] v l = tt
NoneAbove-NotBelow s (t ∷ ss) (v, (w, vs)) (next le l) = (
  ordered (number s) (number t) (compare_shares-compare s t v w),
  NoneAbove-NotBelow t ss (w, vs) l,
)
  where
    ordered : (m n : ℕ) → compare_shares s t ≡ compare m n → m ≤ n
    ordered m n e = elim (Bool-cases (ltb n m)) [
      | inl above ↦
          absurd (le (e ∙ (let g : compare m n ≡ Ordering.gt = ground (arith, above) in g)))
      | inr low ↦ ground (arith, low)
    ]

le_value-inj :
    (h k : List ℕ)
    → length h ≡ length k
    → All IsByte h
    → All IsByte k
    → le_value h ≡ le_value k
    → h ≡ k
unfolding le_value
le_value-inj [] [] l v w e = refl
le_value-inj [] (c ∷ k) l v w e = absurd (omega arith)
le_value-inj (b ∷ h) [] l v w e = absurd (omega arith)
le_value-inj (b ∷ h) (c ∷ k) l (v, vs) (w, ws) e =
    ap₂ ◌∷◌ (omega arith) (le_value-inj h k (omega arith) vs ws (omega arith))

same_address_refl : (a : PackedAddress) → same_address a a ≡ true
unfolding same_address
same_address_refl a = ground (arith, bytes_eq_refl a.spend, bytes_eq_refl a.view)

-- Addresses of one number are one address.
address_number-inj :
    (a b : PackedAddress) → IsAddress a → IsAddress b → address_number a ≡ address_number b → a ≡ b
address_number-inj a b v w e =
    let va = view_lt a v in
    let vb = view_lt b w in
    let views : le_value a.view ≡ le_value b.view = omega (arith, va, vb, e) in
    let spends : le_value a.spend ≡ le_value b.spend = omega (arith, views, e) in
    ap₂ (λ s t. record { spend = s; view = t })
      (le_value-inj _ _ (v.spend_length ∙ sym w.spend_length) v.spend_bytes w.spend_bytes spends)
      (le_value-inj _ _ (v.view_length ∙ sym w.view_length) v.view_bytes w.view_bytes views)

-- The result of the loop starts with the share at hand, and rises from there.
record Compacted (current : Share) (result : List Share) : Type 0 where
  weight : Difficulty
  tail : List Share
  shape : result ≡ record { address = current.address; weight = weight } ∷ tail
  rises : Above (number current) tail

compact_loop-Compacted :
    (current : Share) (ss : List Share)
    → All (λ t. IsAddress t.address) (current ∷ ss)
    → NotBelow (number current) ss
    → Compacted current (compact_loop current ss)
unfolding compact_loop NotBelow Above
compact_loop-Compacted current [] v l = record {
  weight = current.weight;
  tail = [];
  shape = refl;
  rises = tt;
}
compact_loop-Compacted current (s ∷ ss) (v, (w, vs)) (le, l) =
    elim (Bool-cases (same_address current.address s.address)) [
      | inl same ↦
          let e : s.address ≡ current.address = sym (same_address-eq _ _ same) in
          let merged = record current { weight = add current.weight s.weight } in
          let c =
            compact_loop-Compacted merged ss (v, vs)
              (subst (λ a. NotBelow (address_number a) ss) e l) in
          record { weight = c.weight; tail = c.tail; shape = rw same c.shape; rises = c.rises }
      | inr differ ↦
          let c = compact_loop-Compacted s ss (w, vs) l in
          record {
            weight = current.weight;
            tail = compact_loop s ss;
            shape = rw differ refl;
            rises =
                rw c.shape
                  (apart (Bool-cases (address_number current.address == number s)) differ, c.rises);
          }
    ]
  where
    apart :
        (address_number current.address == number s) ≡ true
          ⊎ (address_number current.address == number s) ≡ false
        → same_address current.address s.address ≡ false
        → number current < number s
    apart (inl equal) differ =
        let one : current.address ≡ s.address =
          address_number-inj _ _ v w (ground (arith, equal)) in
        absurd (
          let f = ap (λ a. same_address current.address a) (sym one) in
          let g = same_address_refl current.address in cc)
    apart (inr other) differ = ground (arith, other, le)

-- Where no share of the sorted slice is above the next one, and the addresses are two keys of 32 bytes,
-- Compact returns shares with different addresses, in ascending order of their numbers.
pub compact-Rising :
    (sort_func : (Share → Share → Ordering) → List Share → List Share) (ss : List Share)
    → All (λ t. IsAddress t.address) (sort_func compare_shares ss)
    → NoneAbove (sort_func compare_shares ss)
    → Rising (compact sort_func ss)
unfolding compact Rising
compact-Rising sort_func [] v l = tt
compact-Rising sort_func (s ∷ ss) v l =
    rw some_shares (sorted (sort_func compare_shares (s ∷ ss)) v l)
  where
    some_shares : (suc (length ss) == 0) ≡ false
    some_shares = ground arith

    sorted :
        (xs : List Share)
        → All (λ t. IsAddress t.address) xs
        → NoneAbove xs
        → Rising (compact_sorted sort_func xs)
    sorted [] v' l' = unfold compact_sorted in tt
    sorted (x ∷ xs) v' l' =
        let c = compact_loop-Compacted x xs v' (NoneAbove-NotBelow x xs v' l') in
        unfold compact_sorted in rw c.shape c.rises
