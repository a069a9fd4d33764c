-- ===== src/Harpoon/Labels/Valid.antt =====
-- The labels made are valid: pkg/runtimeharpoon/host_registration.go.
use tunnel_client.Base.{
  ◌≡◌, refl, ap, sym, subst, ◌∙◌, ◌⊎◌, ℕ, zero, suc, ◌+◌, ◌-◌, ◌/◌, ◌%◌, ◌≤◌, Bool, true, false,
  ◌||◌, [], ◌∷◌, ◌++◌, ltb, leb, Bytes, is_empty, length, take, arith, Bool-cases, inl, inr,
  length-append, length-take, to_lower, trim_space, trim_left, is_space,
}
use mathlib.Core.List.{reverse, reverse-reverse}
use tunnel_client.Harpoon.Target.{are_label_bytes, is_label_byte, matches_label_pattern}
use tunnel_client.Harpoon.Labels.{
  digits, decimal, dashed, trim_marks_left, trim_marks_right, with_valid_start, sanitize_label,
  label_with_numeric_suffix, candidate, or_x, shortened, suffixed,
}
use tunnel_client.Harpoon.Labels.Marks.{
  starts_valid, and_elim, are_label_bytes-append, are_label_bytes-take, are_label_bytes-trim,
  are_label_bytes-dashed, starts_valid-trim, trim_marks_right_first, are_label_bytes-trim_right,
  length-trim_right, matches-label, are_label_bytes-reverse,
}

abbrev pub IsLabel : Bytes → Type 0
IsLabel x = (starts_valid x ≡ true) × (are_label_bytes x ≡ true) × (length x ≤ 64)

pub IsLabel-matches : (x : Bytes) → IsLabel x → matches_label_pattern x ≡ true
IsLabel-matches x h = matches-label x h.0 h.1 h.2

with_valid_start_same : (x : Bytes) → starts_valid x ≡ true → with_valid_start x ≡ x
with_valid_start_same [] h = refl
with_valid_start_same (c ∷ s) h = rw h refl

starts_valid-take :
    (n : ℕ) (x : Bytes) → 1 ≤ n → starts_valid x ≡ true → starts_valid (take n x) ≡ true
starts_valid-take zero x l h = elim l [ ]
starts_valid-take (suc n) [] l h = h
starts_valid-take (suc n) (c ∷ s) l h = h

length_taken : (n : ℕ) (x : Bytes) → length (take n x) ≤ n
length_taken n x = omega (arith, length-take n x)

is_empty_lem : (x : Bytes) → is_empty x ≡ true → x ≡ []
is_empty_lem [] h = refl
is_empty_lem (c ∷ s) h = cc

or_cases : (a b : Bool) → (a || b) ≡ true → (a ≡ true) ⊎ (b ≡ true)
or_cases true b h = inl refl
or_cases false b h = inr h

nothing : take 64 (with_valid_start (trim_marks_right [])) ≡ []
unfolding trim_marks_right trim_marks_left
nothing = refl

-- A text is sanitized to nothing or to a label.
pub sanitize_label-IsLabel :
    (raw : Bytes) → (sanitize_label raw ≡ []) ⊎ IsLabel (sanitize_label raw)
unfolding sanitize_label
sanitize_label-IsLabel raw =
    let d = dashed false (to_lower (trim_space raw)) in
    let l = trim_marks_left d in
    let m = trim_marks_right l in
    let bytes =
      are_label_bytes-trim_right l
        (are_label_bytes-trim d (are_label_bytes-dashed false (to_lower (trim_space raw)))) in
    elim (or_cases (is_empty l) _
      (starts_valid-trim d (are_label_bytes-dashed false (to_lower (trim_space raw))))) [
        | inl a ↦
            inl (
              ap (λ s. take 64 (with_valid_start (trim_marks_right s))) (is_empty_lem l a)
              ∙ nothing)
        | inr b ↦
            let start = trim_marks_right_first l b in
            inr (
              subst (λ s. IsLabel (take 64 s)) (sym (with_valid_start_same m start))
                (
                  starts_valid-take 64 m (omega arith) start,
                  are_label_bytes-take 64 m bytes,
                  length_taken 64 m,
                ))
      ]

digit_byte : (n : ℕ) → is_label_byte (48 + n % 10) ≡ true
digit_byte n = ground arith

small_byte : (n : ℕ) → ltb n 10 ≡ true → is_label_byte (48 + n) ≡ true
small_byte n h = ground arith

one_byte : (c : ℕ) → is_label_byte c ≡ true → are_label_bytes (c ∷ []) ≡ true
one_byte c h = rw h refl

are_label_bytes-digits : (fuel n : ℕ) → are_label_bytes (digits fuel n) ≡ true
unfolding digits
are_label_bytes-digits zero n = one_byte (48 + n % 10) (digit_byte n)
are_label_bytes-digits (suc fuel) n = elim (Bool-cases (ltb n 10)) [
  | inl a ↦ rw a (one_byte (48 + n) (small_byte n a))
  | inr b ↦ rw b (
      are_label_bytes-append (digits fuel (n / 10)) _ (are_label_bytes-digits fuel (n / 10))
        (one_byte (48 + n % 10) (digit_byte n)))
]

or_x_lem : (s : Bytes) → starts_valid s ≡ true → or_x s ≡ s
or_x_lem [] h = cc
or_x_lem (c ∷ s) h = refl

within : (a b c : ℕ) → a ≤ b → b ≤ c → a ≤ c
within a b c h g = omega arith

not_longer : (a b : ℕ) → ltb a b ≡ false → b ≤ a
not_longer a b h = ground arith

total : (n a b : ℕ) → n ≡ a + b → a ≤ 64 - b → 1 ≤ 64 - b → n ≤ 64
total n a b e h g = omega arith

shortened-IsLabel :
    (base : Bytes) (room : ℕ)
    → 1 ≤ room
    → IsLabel base
    → (starts_valid (shortened base room) ≡ true)
      × (are_label_bytes (shortened base room) ≡ true)
      × (length (shortened base room) ≤ room)
unfolding shortened
shortened-IsLabel base room l h = elim (Bool-cases (ltb room (length base))) [
  | inl a ↦
      let start = trim_marks_right_first (take room base) (starts_valid-take room base l h.0) in
      rw (a, or_x_lem (trim_marks_right (take room base)) start)
        (
          start,
          are_label_bytes-trim_right (take room base) (are_label_bytes-take room base h.1),
          within _ _ room (length-trim_right (take room base)) (length_taken room base),
        )
  | inr b ↦ rw b (h.0, h.1, not_longer room (length base) b)
]

starts_valid-append : (x y : Bytes) → starts_valid x ≡ true → starts_valid (x ++ y) ≡ true
starts_valid-append [] y h = cc
starts_valid-append (c ∷ x) y h = h

suffixed-IsLabel :
    (base part : Bytes)
    → IsLabel base
    → are_label_bytes part ≡ true
    → (suffixed base part ≡ []) ⊎ IsLabel (suffixed base part)
unfolding suffixed
suffixed-IsLabel base part h g = elim (Bool-cases (ltb (64 - length part) 1)) [
  | inl a ↦ inl (rw a refl)
  | inr b ↦
      let s = shortened-IsLabel base (64 - length part) (not_longer _ 1 b) h in
      let t = shortened base (64 - length part) in
      inr (
        rw b (
          starts_valid-append t part s.0,
          are_label_bytes-append t part s.1 g,
          total (length (t ++ part)) (length t) (length part) (length-append t part) s.2
              (not_longer (64 - length part) 1 b),
        ))
]

-- A label with a suffix is a label, or nothing.
pub label_with_numeric_suffix-IsLabel :
    (base : Bytes) (i : ℕ)
    → IsLabel base
    → (label_with_numeric_suffix base i ≡ []) ⊎ IsLabel (label_with_numeric_suffix base i)
unfolding label_with_numeric_suffix decimal
label_with_numeric_suffix-IsLabel base i h = elim (Bool-cases (is_empty base || leb i 0)) [
  | inl a ↦ inr (rw a h)
  | inr b ↦ rw b (suffixed-IsLabel base (45 ∷ decimal i) h (are_label_bytes-digits i i))
]

pub candidate-IsLabel :
    (base : Bytes) (i : ℕ) → IsLabel base → (candidate base i ≡ []) ⊎ IsLabel (candidate base i)
unfolding candidate
candidate-IsLabel base i h = elim (Bool-cases (ltb 0 i)) [
  | inl a ↦ rw a (label_with_numeric_suffix-IsLabel base i h)
  | inr b ↦ inr (rw b h)
]

no_space : (c : ℕ) → is_label_byte c ≡ true → is_space c ≡ false
no_space c h = ground arith

trim_left_same : (x : Bytes) → are_label_bytes x ≡ true → trim_left x ≡ x
unfolding trim_left
trim_left_same [] h = refl
trim_left_same (c ∷ s) h = rw (no_space c (and_elim (is_label_byte c) _ h).0) refl

-- A label has no space to trim.
pub trim_space_label : (x : Bytes) → are_label_bytes x ≡ true → trim_space x ≡ x
unfolding trim_space
trim_space_label x h =
    ap (λ s. reverse (trim_left (reverse s))) (trim_left_same x h)
    ∙ ap reverse (trim_left_same (reverse x) (are_label_bytes-reverse x h))
    ∙ reverse-reverse x
