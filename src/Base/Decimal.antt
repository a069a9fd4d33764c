-- ===== src/Base/Decimal.antt =====
-- Decimal numbers in text: what the source uses of `strconv`.
use Prim.Native.Nat.{ℕ, ◌+◌, ◌*◌, ◌-◌}
use mathlib.Core.Bool.{Bool, true, not, ◌&&◌, ◌||◌}
use mathlib.Core.Option.{Option, none, some}
use mathlib.Core.List.{[], ◌∷◌}
use tunnel_client.Base.Tests.{leb, ltb, if◌then◌else◌}
use tunnel_client.Base.ByteStrings.{Bytes, is_empty}

abbrev pub is_digit : ℕ → Bool
is_digit c = leb 48 c && leb c 57

unfoldable pub all_digits : Bytes → Bool
all_digits [] = true
all_digits (c ∷ s) = is_digit c && all_digits s

-- The number that decimal digits stand for, after what was read before.
unfoldable pub digits_value : ℕ → Bytes → ℕ
digits_value acc [] = acc
digits_value acc (c ∷ s) = digits_value (acc * 10 + (c - 48)) s

-- strconv.ParseUint(s, 10, 64) on a text of digits: `none` where it is out of range.
unfoldable pub parse_uint : Bytes → Option ℕ
unfolding digits_value all_digits
parse_uint s =
    if is_empty s || not (all_digits s)
    then none
    else (if ltb 18446744073709551615 (digits_value 0 s) then none else some (digits_value 0 s))
