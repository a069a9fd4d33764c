-- ===== src/Channel/Trim.antt =====
-- Cutting white space off a text: `strings.TrimSpace` in pkg/types/channel.go, on ASCII.
use tunnel_client.Base.{
  ℕ, ◌≡◌, refl, true, false, [], ◌∷◌, ◌++◌, Bytes, is_space, trim_left, All, trim_space, ap, sym,
  ◌∙◌, Bool-cases, inl, inr, append-nil,
}
use mathlib.Core.List.{reverse, reverse_aux, reverse-reverse, reverse-append}

-- The text is white space.
abbrev pub IsBlank : Bytes → Type 0
IsBlank = All (λ c. is_space c ≡ true)

-- The text has no white space.
abbrev pub HasNoSpace : Bytes → Type 0
HasNoSpace = All (λ c. is_space c ≡ false)

module _ (P : ℕ → Type 0) where
  All-reverse_aux : (s t : Bytes) → All P s → All P t → All P (reverse_aux s t)
  All-reverse_aux [] t h k = k
  All-reverse_aux (c ∷ s) t h k = All-reverse_aux s (c ∷ t) h.1 (h.0, k)

  All-reverse : (s : Bytes) → All P s → All P (reverse s)
  All-reverse s h = All-reverse_aux s [] h tt

trim_left_blank : (s t : Bytes) → IsBlank s → trim_left (s ++ t) ≡ trim_left t
unfolding trim_left
trim_left_blank [] t h = refl
trim_left_blank (c ∷ s) t h = rw h.0 (trim_left_blank s t h.1)

trim_left_fixed : (s : Bytes) → HasNoSpace s → trim_left s ≡ s
unfolding trim_left
trim_left_fixed [] h = refl
trim_left_fixed (c ∷ s) h = rw h.0 refl

trim_left_name :
    (c : ℕ) (s t : Bytes) → HasNoSpace (c ∷ s) → trim_left ((c ∷ s) ++ t) ≡ (c ∷ s) ++ t
unfolding trim_left
trim_left_name c s t h = rw h.0 refl

-- White space on both sides is cut off.
pub trim_space_lem :
    (before name after : Bytes)
    → IsBlank before
    → IsBlank after
    → HasNoSpace name
    → trim_space (before ++ (name ++ after)) ≡ name
unfolding trim_space
trim_space_lem before [] after b a h =
    ap (λ t. reverse (trim_left (reverse t)))
      (trim_left_blank before after b
        ∙ ap trim_left (sym (append-nil after))
        ∙ trim_left_blank after [] a
        ∙ trim_left_fixed [] tt)
    ∙ ap reverse (trim_left_fixed [] tt)
trim_space_lem before (c ∷ name) after b a h =
    ap (λ t. reverse (trim_left (reverse t)))
      (trim_left_blank before ((c ∷ name) ++ after) b ∙ trim_left_name c name after h)
    ∙ ap (λ t. reverse (trim_left t)) (reverse-append (c ∷ name) after)
    ∙ ap reverse (
        trim_left_blank (reverse after) (reverse (c ∷ name)) (All-reverse _ after a)
        ∙ trim_left_fixed (reverse (c ∷ name)) (All-reverse _ (c ∷ name) h))
    ∙ reverse-reverse (c ∷ name)

-- What is cut off on the left is white space.
trim_left_split : (s : Bytes) → (b : Bytes) × IsBlank b × (s ≡ b ++ trim_left s)
unfolding trim_left
trim_left_split [] = ([], tt, refl)
trim_left_split (c ∷ s) = elim (Bool-cases (is_space c)) [
  | inl a ↦ let (b, blank, e) = trim_left_split s in (c ∷ b, (a, blank), rw a (ap (c ∷◌) e))
  | inr a ↦ ([], tt, rw a refl)
]

-- So is what is cut off on the right.
pub trim_space_split :
    (s : Bytes)
    → (before : Bytes) × (after : Bytes) × IsBlank before
      × IsBlank after
      × (s ≡ before ++ (trim_space s ++ after))
unfolding trim_space
trim_space_split s =
    let (before, b, cut) = trim_left_split s in
    let (after, a, cut_right) = trim_left_split (reverse (trim_left s)) in
    (
      before,
      reverse after,
      b,
      All-reverse _ after a,
      cut
          ∙ ap (before ++◌) (
              sym (reverse-reverse (trim_left s))
              ∙ ap reverse cut_right
              ∙ reverse-append after (trim_left (reverse (trim_left s)))),
    )
