-- ===== src/Harpoon/Labels.antt =====
-- Labels made for hosts that register themselves: pkg/runtimeharpoon/host_registration.go. Texts are
-- ASCII where their case is changed.
pub mod Marks
pub mod Valid
pub mod Free
use tunnel_client.Base.{
  ℕ, zero, suc, ◌+◌, ◌-◌, ◌/◌, ◌%◌, Bool, true, false, not, ◌&&◌, ◌||◌, Option, none, some, List,
  [], ◌∷◌, ◌++◌, ◌==◌, ltb, leb, if◌then◌else◌, Bytes, codes, is_empty, to_lower, trim_space,
  length, take, is_some,
}
use mathlib.Core.List.{reverse}
use tunnel_client.Harpoon.Target.{Target, is_label_byte, is_label_start_valid}
use tunnel_client.Harpoon.Registry.{Registry}
use tunnel_client.Harpoon.Lookup.{lookup}

-- The digits of a number; as much fuel as the number is enough.
unfoldable pub digits : (fuel : ℕ) → ℕ → Bytes
digits zero n = (48 + n % 10) ∷ []
digits (suc fuel) n =
    let rest = digits fuel (n / 10) in
    if ltb n 10 then (48 + n) ∷ [] else rest ++ ((48 + n % 10) ∷ [])

-- strconv.Itoa, on a number that is not negative.
unfoldable pub decimal : ℕ → Bytes
unfolding digits
decimal n = digits n n

-- Every run of other bytes becomes one dash.
unfoldable pub dashed : (in_run : Bool) → Bytes → Bytes
dashed in_run [] = []
dashed in_run (c ∷ s) =
    let next = dashed (not (is_label_byte c)) s in
    if is_label_byte c then c ∷ next else (if in_run then next else 45 ∷ next)

unfoldable pub trim_marks_left : Bytes → Bytes
trim_marks_left [] = []
trim_marks_left (c ∷ s) = let rest = trim_marks_left s in if c == 45 || c == 95 then rest else c ∷ s

-- strings.TrimRight of dashes and underscores.
unfoldable pub trim_marks_right : Bytes → Bytes
unfolding trim_marks_left
trim_marks_right s = reverse (trim_marks_left (reverse s))

abbrev pub with_valid_start : Bytes → Bytes
with_valid_start [] = []
with_valid_start (c ∷ s) = if is_label_start_valid c then c ∷ s else 120 ∷ c ∷ s

unfoldable pub sanitize_label : Bytes → Bytes
unfolding dashed trim_marks_left trim_marks_right to_lower trim_space
sanitize_label raw = take 64 (
    with_valid_start
      (trim_marks_right (trim_marks_left (dashed false (to_lower (trim_space raw))))))

abbrev pub or_x : Bytes → Bytes
or_x s = if is_empty s then codes "x" else s

-- A text cut to a length, without marks at its end where it is cut.
unfoldable pub shortened : Bytes → (room : ℕ) → Bytes
unfolding trim_marks_right
shortened base room =
    if ltb room (length base) then or_x (trim_marks_right (take room base)) else base

unfoldable pub suffixed : Bytes → (part : Bytes) → Bytes
unfolding shortened
suffixed base part =
    if ltb (64 - length part) 1 then [] else shortened base (64 - length part) ++ part

unfoldable pub label_with_numeric_suffix : Bytes → ℕ → Bytes
unfolding decimal suffixed
label_with_numeric_suffix base suffix =
    if is_empty base || leb suffix 0 then base else suffixed base (45 ∷ decimal suffix)

unfoldable pub candidate : Bytes → ℕ → Bytes
unfolding label_with_numeric_suffix
candidate base i = if ltb 0 i then label_with_numeric_suffix base i else base

-- The loop, from the try of that number on.
unfoldable pub try_labels : (tries : ℕ) → Bytes → Registry → (i : ℕ) → Bytes × ℕ
unfolding candidate lookup
try_labels zero base r i = ([], 0)
try_labels (suc n) base r i =
    elim (is_empty (candidate base i) || is_some (lookup (candidate base i) r)) [
      | true ↦ try_labels n base r (i + 1)
      | false ↦ (candidate base i, i)
    ]

abbrev pub max_tries : ℕ
max_tries = 10000

unfoldable pub resolve_auto_label_collision : Bytes → Registry → Bytes × ℕ
unfolding try_labels
resolve_auto_label_collision base r =
    if is_empty base then ([], 0) else try_labels max_tries base r 0
