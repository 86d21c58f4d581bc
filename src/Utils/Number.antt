-- ===== src/Utils/Number.antt =====
-- utils/number.go: the size of a varint.
pub mod Size
use p2pool_observer.Prelude.{ℕ, ◌^◌, ltb, if◌then◌else◌}

-- UVarInt64Size, with the thresholds VarIntLen1 to VarIntLen9.
unfoldable pub uvarint64_size : ℕ → ℕ
uvarint64_size x =
    if ltb x (2 ^ 7)
    then 1
    else if ltb x (2 ^ 14)
    then 2
    else if ltb x (2 ^ 21)
    then 3
    else if ltb x (2 ^ 28)
    then 4
    else if ltb x (2 ^ 35)
    then 5
    else if ltb x (2 ^ 42)
    then 6
    else if ltb x (2 ^ 49)
    then 7
    else if ltb x (2 ^ 56)
    then 8
    else if ltb x (2 ^ 63)
    then 9
    else 10
