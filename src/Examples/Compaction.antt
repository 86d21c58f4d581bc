-- ===== src/Examples/Compaction.antt =====
-- Three shares of two addresses.
use Prim.Native.Nat.{compare, Ordering}
use mathlib.Core.List.Perm
use p2pool_observer.Prelude.{◌%◌, ◌^◌, ◌≡◌, refl, arith, List, [], ◌∷◌, All}
use p2pool_observer.Codec.{IsByte, le_value}
use p2pool_observer.Types.Hash.{bytes_eq, compare_hash, word}
use p2pool_observer.SideChain.Share.{Share, PackedAddress}
use p2pool_observer.SideChain.Shares.{
  same_address, last_byte, compare_packed, compare_shares, compact,
}
use p2pool_observer.SideChain.Shares.Order.{IsAddress, address_number, compare_shares-compare}
use p2pool_observer.SideChain.Shares.Compacted.{address_weight, compact-weight}
use p2pool_observer.SideChain.Shares.Distinct.{NoneAbove, single, next, Rising, compact-Rising}
use p2pool_observer.Examples.{some_key, other_key}

abbrev low_address : PackedAddress
low_address = record { spend = some_key; view = other_key }

abbrev high_address : PackedAddress
high_address = record { spend = other_key; view = some_key }

abbrev low_share : Share
low_share = record { address = low_address; weight = record { lo = 4; hi = 1 } }

abbrev high_share : Share
high_share = record { address = high_address; weight = record { lo = 9; hi = 0 } }

abbrev three_shares : List Share
three_shares = low_share ∷ low_share ∷ high_share ∷ []

-- A sort that suffices for shares in order.
abbrev keep_order : (Share → Share → Ordering) → List Share → List Share
keep_order cmp ss = ss

some_key-IsByte : All IsByte some_key
some_key-IsByte = ground arith

other_key-IsByte : All IsByte other_key
other_key-IsByte = ground arith

low_address-IsAddress : IsAddress low_address
low_address-IsAddress = record {
  spend_length = refl;
  view_length = refl;
  spend_bytes = some_key-IsByte;
  view_bytes = other_key-IsByte;
}

high_address-IsAddress : IsAddress high_address
high_address-IsAddress = record {
  spend_length = refl;
  view_length = refl;
  spend_bytes = other_key-IsByte;
  view_bytes = some_key-IsByte;
}

three_shares-NoneAbove : NoneAbove three_shares
unfolding compare_shares same_address compare_packed last_byte bytes_eq compare_hash word le_value
three_shares-NoneAbove = next (λ e. cc) (next (λ e. cc) single)

compare_shares-compare_example :
    compare_shares low_share high_share
    ≡ compare (address_number low_address) (address_number high_address)
compare_shares-compare_example =
    compare_shares-compare low_share high_share low_address-IsAddress high_address-IsAddress

compact-weight_example :
    address_weight low_address (compact keep_order three_shares) % 2 ^ 128
    ≡ address_weight low_address three_shares % 2 ^ 128
compact-weight_example = compact-weight keep_order low_address three_shares Perm.rfl

compact-Rising_example : Rising (compact keep_order three_shares)
compact-Rising_example =
    compact-Rising keep_order three_shares
      (low_address-IsAddress, (low_address-IsAddress, (high_address-IsAddress, tt)))
      three_shares-NoneAbove
