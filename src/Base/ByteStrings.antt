-- ===== src/Base/ByteStrings.antt =====
-- Go strings as sequences of bytes, with the operations of `strings` that the source uses.
use Prim.Native.Nat.{ℕ, ◌+◌}
use Prim.Native.Char.{code}
use Prim.Native.String.{String}
use mathlib.Core.Path.{◌≡◌, refl}
use mathlib.Core.Logic.{◌↔◌}
use mathlib.Core.Bool.{Bool, true, false, ◌&&◌, ◌||◌}
use mathlib.Core.List.{List, [], ◌∷◌, reverse}
use native.Mathlib.Omega.{arith}
use tunnel_client.Base.Tests.{◌==◌, leb, if◌then◌else◌}

abbrev pub Bytes : Type 0
Bytes = List ℕ

-- The bytes of an ASCII text.
abbrev pub codes : String → Bytes
codes String.[] = []
codes (String.◌∷◌ c s) = code c ∷ codes s

unfoldable pub bytes_eq : Bytes → Bytes → Bool
bytes_eq [] [] = true
bytes_eq (a ∷ x) (b ∷ y) = a == b && bytes_eq x y
bytes_eq [] (b ∷ y) = false
bytes_eq (a ∷ x) [] = false

pub bytes_eq_iff : (x y : Bytes) → (bytes_eq x y ≡ true) ↔ (x ≡ y)
unfolding bytes_eq
bytes_eq_iff [] [] = ground arith
bytes_eq_iff (a ∷ x) (b ∷ y) = ground (arith, bytes_eq_iff x y)
bytes_eq_iff [] (b ∷ y) = ground arith
bytes_eq_iff (a ∷ x) [] = ground arith

byte_eq_comm : (a b : ℕ) → (a == b) ≡ (b == a)
byte_eq_comm a b = ground arith

pub bytes_eq_comm : (x y : Bytes) → bytes_eq x y ≡ bytes_eq y x
unfolding bytes_eq
bytes_eq_comm [] [] = refl
bytes_eq_comm (a ∷ x) (b ∷ y) = rw (byte_eq_comm a b, bytes_eq_comm x y) refl
bytes_eq_comm [] (b ∷ y) = refl
bytes_eq_comm (a ∷ x) [] = refl

abbrev pub is_empty : Bytes → Bool
is_empty [] = true
is_empty (_ ∷ _) = false

-- ASCII white space: tab, line feed, vertical tab, form feed, carriage return and space.
abbrev pub is_space : ℕ → Bool
is_space c = (leb 9 c && leb c 13) || c == 32

unfoldable pub trim_left : Bytes → Bytes
trim_left [] = []
trim_left (c ∷ s) = if is_space c then trim_left s else c ∷ s

-- strings.TrimSpace, on ASCII.
unfoldable pub trim_space : Bytes → Bytes
unfolding trim_left
trim_space s = reverse (trim_left (reverse (trim_left s)))

abbrev pub lower_byte : ℕ → ℕ
lower_byte c = if leb 65 c && leb c 90 then c + 32 else c

unfoldable pub to_lower : Bytes → Bytes
to_lower [] = []
to_lower (c ∷ s) = lower_byte c ∷ to_lower s

-- strings.EqualFold, on ASCII.
unfoldable pub equal_fold : Bytes → Bytes → Bool
unfolding to_lower bytes_eq
equal_fold a b = bytes_eq (to_lower a) (to_lower b)
