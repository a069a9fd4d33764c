-- ===== src/Harpoon/Labels/Marks.antt =====
-- What making a label keeps of its bytes: pkg/runtimeharpoon/host_registration.go.
use tunnel_client.Base.{
  ◌≡◌, refl, ap, ◌∙◌, ℕ, zero, suc, ◌+◌, ◌≤◌, Bool, true, false, not, ◌&&◌, ◌||◌, [], ◌∷◌, ◌++◌,
  ◌==◌, leb, if◌then◌else◌, Bytes, is_empty, length, take, arith, Bool-cases, inl, inr,
  length-append,
}
use mathlib.Core.List.{reverse, reverse-append}
use tunnel_client.Harpoon.Target.{
  are_label_bytes, is_label_byte, is_label_start_valid, matches_label_pattern,
}
use tunnel_client.Harpoon.Labels.{dashed, trim_marks_left, trim_marks_right}

abbrev pub starts_valid : Bytes → Bool
starts_valid [] = false
starts_valid (c ∷ s) = is_label_start_valid c

and_intro : (a b : Bool) → a ≡ true → b ≡ true → (a && b) ≡ true
and_intro a b h g = ground arith

pub and_elim : (a b : Bool) → (a && b) ≡ true → (a ≡ true) × (b ≡ true)
and_elim a b h = ground arith

pub are_label_bytes-append :
    (x y : Bytes)
    → are_label_bytes x ≡ true
    → are_label_bytes y ≡ true
    → are_label_bytes (x ++ y) ≡ true
are_label_bytes-append [] y h g = g
are_label_bytes-append (c ∷ x) y h g =
    let a = and_elim (is_label_byte c) _ h in
    and_intro (is_label_byte c) _ a.0 (are_label_bytes-append x y a.1 g)

pub are_label_bytes-reverse :
    (x : Bytes) → are_label_bytes x ≡ true → are_label_bytes (reverse x) ≡ true
are_label_bytes-reverse [] h = refl
are_label_bytes-reverse (c ∷ x) h =
    let a = and_elim (is_label_byte c) _ h in
    ap are_label_bytes (reverse-append (c ∷ []) x)
    ∙ are_label_bytes-append (reverse x) (c ∷ []) (are_label_bytes-reverse x a.1)
        (and_intro (is_label_byte c) true a.0 refl)

pub are_label_bytes-take :
    (n : ℕ) (x : Bytes) → are_label_bytes x ≡ true → are_label_bytes (take n x) ≡ true
are_label_bytes-take zero x h = refl
are_label_bytes-take (suc n) [] h = refl
are_label_bytes-take (suc n) (c ∷ x) h =
    let a = and_elim (is_label_byte c) _ h in
    and_intro (is_label_byte c) _ a.0 (are_label_bytes-take n x a.1)

pub are_label_bytes-trim :
    (x : Bytes) → are_label_bytes x ≡ true → are_label_bytes (trim_marks_left x) ≡ true
unfolding trim_marks_left
are_label_bytes-trim [] h = refl
are_label_bytes-trim (c ∷ x) h = elim (Bool-cases (c == 45 || c == 95)) [
  | inl a ↦ rw a (are_label_bytes-trim x (and_elim (is_label_byte c) _ h).1)
  | inr b ↦ rw b h
]

dashed_lem :
    (c : ℕ) (in_run is_byte : Bool) (next : Bytes)
    → is_label_byte c ≡ is_byte
    → are_label_bytes next ≡ true
    → are_label_bytes (if is_byte then c ∷ next else (if in_run then next else 45 ∷ next)) ≡ true
dashed_lem c in_run true next h g = and_intro (is_label_byte c) _ h g
dashed_lem c true false next h g = g
dashed_lem c false false next h g = g

pub are_label_bytes-dashed : (b : Bool) (x : Bytes) → are_label_bytes (dashed b x) ≡ true
unfolding dashed
are_label_bytes-dashed b [] = refl
are_label_bytes-dashed b (c ∷ x) =
    dashed_lem c b (is_label_byte c) _ refl (are_label_bytes-dashed (not (is_label_byte c)) x)

unmarked :
    (c : ℕ) → is_label_byte c ≡ true → (c == 45 || c == 95) ≡ false → is_label_start_valid c ≡ true
unmarked c h g = ground arith

-- What is left of the marks at the start starts as a label does.
pub starts_valid-trim :
    (x : Bytes)
    → are_label_bytes x ≡ true
    → (is_empty (trim_marks_left x) || starts_valid (trim_marks_left x)) ≡ true
unfolding trim_marks_left
starts_valid-trim [] h = refl
starts_valid-trim (c ∷ x) h = elim (Bool-cases (c == 45 || c == 95)) [
  | inl a ↦ rw a (starts_valid-trim x (and_elim (is_label_byte c) _ h).1)
  | inr b ↦ rw b (unmarked c (and_elim (is_label_byte c) _ h).0 b)
]

not_marked : (c : ℕ) → is_label_start_valid c ≡ true → (c == 45 || c == 95) ≡ false
not_marked c h = ground arith

-- A last byte that is no mark stops the trimming.
trim_marks_left_last :
    (x : Bytes) (c : ℕ)
    → is_label_start_valid c ≡ true
    → (y : Bytes) × (trim_marks_left (x ++ (c ∷ [])) ≡ y ++ (c ∷ []))
unfolding trim_marks_left
trim_marks_left_last [] c h = ([], rw (not_marked c h) refl)
trim_marks_left_last (d ∷ x) c h = elim (Bool-cases (d == 45 || d == 95)) [
  | inl a ↦ let f = trim_marks_left_last x c h in (f.0, rw a f.1)
  | inr b ↦ (d ∷ x, rw b refl)
]

pub trim_marks_right_first :
    (x : Bytes) → starts_valid x ≡ true → starts_valid (trim_marks_right x) ≡ true
unfolding trim_marks_right
trim_marks_right_first [] h = cc
trim_marks_right_first (c ∷ x) h =
    let f = trim_marks_left_last (reverse x) c h in
    ap (λ s. starts_valid (reverse (trim_marks_left s))) (reverse-append (c ∷ []) x)
    ∙ ap (λ s. starts_valid (reverse s)) f.1
    ∙ ap starts_valid (reverse-append f.0 (c ∷ []))
    ∙ h

pub are_label_bytes-trim_right :
    (x : Bytes) → are_label_bytes x ≡ true → are_label_bytes (trim_marks_right x) ≡ true
unfolding trim_marks_right
are_label_bytes-trim_right x h =
    are_label_bytes-reverse (trim_marks_left (reverse x))
      (are_label_bytes-trim (reverse x) (are_label_bytes-reverse x h))

le_suc : (a b : ℕ) → a ≤ b → a ≤ suc b
le_suc a b h = omega arith

le_refl : (a : ℕ) → a ≤ a
le_refl a = omega arith

plus_one : (a b : ℕ) → a ≡ b → a + 1 ≡ suc b
plus_one a b h = omega arith

short : (n : ℕ) → suc n ≤ 64 → leb n 63 ≡ true
short n h = ground arith

length-trim_left : (x : Bytes) → length (trim_marks_left x) ≤ length x
unfolding trim_marks_left
length-trim_left [] = omega arith
length-trim_left (c ∷ x) = elim (Bool-cases (c == 45 || c == 95)) [
  | inl a ↦ rw a (le_suc _ _ (length-trim_left x))
  | inr b ↦ rw b (le_refl (suc (length x)))
]

length-reverse : (x : Bytes) → length (reverse x) ≡ length x
length-reverse [] = refl
length-reverse (c ∷ x) =
    ap length (reverse-append (c ∷ []) x)
    ∙ length-append (reverse x) (c ∷ [])
    ∙ plus_one _ _ (length-reverse x)

pub length-trim_right : (x : Bytes) → length (trim_marks_right x) ≤ length x
unfolding trim_marks_right
length-trim_right x = omega (
  arith,
  length-reverse (trim_marks_left (reverse x)),
  length-trim_left (reverse x),
  length-reverse x,
)

-- A label in its parts.
pub matches-label :
    (x : Bytes)
    → starts_valid x ≡ true
    → are_label_bytes x ≡ true
    → length x ≤ 64
    → matches_label_pattern x ≡ true
unfolding matches_label_pattern
matches-label [] h g l = cc
matches-label (c ∷ x) h g l =
    and_intro (is_label_start_valid c) _ h
      (and_intro (are_label_bytes x) _ (and_elim (is_label_byte c) _ g).1 (short (length x) l))
