-- ===== src/SideChain/Shares/Compacted.antt =====
-- Compact keeps the weight of every address, and leaves each address once.
use Prim.Native.Nat.{Ordering}
use mathlib.Core.List.{Perm, foldr}
use mathlib.Core.List.Perm
use native.Mathlib.Nat.{ℕ_set}
use p2pool_observer.Prelude.{
  ℕ, suc, ◌+◌, ◌%◌, ◌^◌, ◌≡◌, refl, sym, ap, ◌∙◌, arith, Bool, true, false, inl, inr, List, [], ◌∷◌,
  ◌==◌, if◌then◌else◌, length, Bool-cases,
}
use p2pool_observer.Types.Uint128.{value}
use p2pool_observer.Types.Difficulty.{add}
use p2pool_observer.Types.Difficulty.Arithmetic.{value-add}
use p2pool_observer.SideChain.Share.{Share, PackedAddress}
use p2pool_observer.SideChain.Shares.{
  same_address, compare_shares, compact_loop, compact_sorted, compact,
}
use p2pool_observer.SideChain.Shares.Order.{same_address-eq}

-- What a share weighs for an address.
abbrev weight_for : PackedAddress → Share → ℕ
weight_for a s = if same_address s.address a then value s.weight else 0

-- The weight of an address in a list of shares.
unfoldable pub address_weight : PackedAddress → List Share → ℕ
address_weight a [] = 0
address_weight a (s ∷ ss) = weight_for a s + address_weight a ss

compact_loop-weight :
    (a : PackedAddress) (current : Share) (ss : List Share)
    → address_weight a (compact_loop current ss) % 2 ^ 128
      ≡ address_weight a (current ∷ ss) % 2 ^ 128
unfolding compact_loop address_weight
compact_loop-weight a current [] = refl
compact_loop-weight a current (s ∷ ss) =
    elim (Bool-cases (same_address current.address s.address)) [
      | inl same ↦
          let ih =
            compact_loop-weight a (record current { weight = add current.weight s.weight }) ss in
          let total = (value-add current.weight s.weight).0 in
          let e : current.address ≡ s.address = same_address-eq _ _ same in
          rw same (
            merged (same_address current.address a) _ _ _ _ _ _ ih total
              (ap (λ x. same_address x a) e))
      | inr differ ↦ let ih = compact_loop-weight a s ss in rw differ (omega (arith, ih))
    ]
  where
    merged :
        (t : Bool) (u : Bool) (x y z w r : ℕ)
        → r % 2 ^ 128 ≡ ((if t then w else 0) + z) % 2 ^ 128
        → w ≡ (x + y) % 2 ^ 128
        → t ≡ u
        → r % 2 ^ 128 ≡ ((if t then x else 0) + ((if u then y else 0) + z)) % 2 ^ 128
    merged true u x y z w r h k e = ground (arith, h, k, e)
    merged false u x y z w r h k e = ground (arith, h, k, e)

address_weight-foldr :
    (a : PackedAddress) (ss : List Share)
    → address_weight a ss ≡ foldr (λ s total. weight_for a s + total) 0 ss
unfolding address_weight
address_weight-foldr a [] = refl
address_weight-foldr a (s ∷ ss) = ap (λ n. weight_for a s + n) (address_weight-foldr a ss)

address_weight-perm :
    (a : PackedAddress) (xs ys : List Share)
    → Perm xs ys
    → address_weight a xs ≡ address_weight a ys
address_weight-perm a xs ys p =
    address_weight-foldr a xs
    ∙ Perm.foldr-eq ℕ_set (λ s total. weight_for a s + total) (λ s t x. omega arith) p 0
    ∙ sym (address_weight-foldr a ys)

-- Where the sort moves the shares and keeps them all, Compact keeps the weight of every address, modulo
-- 2 ^ 128.
pub compact-weight :
    (sort_func : (Share → Share → Ordering) → List Share → List Share) (a : PackedAddress)
    (ss : List Share)
    → Perm (sort_func compare_shares ss) ss
    → address_weight a (compact sort_func ss) % 2 ^ 128 ≡ address_weight a ss % 2 ^ 128
unfolding compact compact_sorted
compact-weight sort_func a [] p = refl
compact-weight sort_func a (s ∷ ss) p = rw some_shares (
    compacted (sort_func compare_shares (s ∷ ss))
    ∙ ap (λ n. n % 2 ^ 128) (address_weight-perm a _ _ p))
  where
    some_shares : (suc (length ss) == 0) ≡ false
    some_shares = ground arith

    compacted :
        (xs : List Share)
        → address_weight a (compact_sorted sort_func xs) % 2 ^ 128 ≡ address_weight a xs % 2 ^ 128
    compacted [] = refl
    compacted (x ∷ xs) = compact_loop-weight a x xs
