-- ===== src/Channel/Normal.antt =====
-- Which texts name which channel: `NormalizeChannel` of pkg/types/channel.go.
use tunnel_client.Base.{
  ℕ, ◌+◌, ◌≤◌, ◌≡◌, refl, true, false, [], ◌∷◌, ◌++◌, arith, Bytes, to_lower, lower_byte, is_space,
  All, trim_space, ap, sym, ◌∙◌, subst, none, some, Bool-cases, ◌⊎◌, inl, inr, ◌↔◌, length,
  if◌then◌else◌,
}
use tunnel_client.Channel.{
  is_channel_byte, are_channel_bytes, matches_channel, canonical, normalize_canonical,
  normalize_channel, default_channel,
}
use tunnel_client.Channel.Trim.{IsBlank, HasNoSpace, trim_space_lem, trim_space_split}

-- A small letter, a digit, an underscore or a dash.
abbrev pub IsChannelByte : ℕ → Type 0
IsChannelByte c = ((97 ≤ c) × (c ≤ 122)) ⊎ (((48 ≤ c) × (c ≤ 57)) ⊎ ((c ≡ 95) ⊎ (c ≡ 45)))

-- One to 64 such bytes.
abbrev pub IsName : Bytes → Type 0
IsName c = All IsChannelByte c × (1 ≤ length c) × (length c ≤ 64)

-- The byte, or the small letter of a capital.
abbrev pub IsSmallOf : ℕ → ℕ → Type 0
IsSmallOf x y = (x ≡ y) ⊎ ((65 ≤ x) × (x ≤ 90) × (y ≡ x + 32))

abbrev pub AreSmallOf : Bytes → Bytes → Type 0
AreSmallOf [] [] = Unit {0}
AreSmallOf (x ∷ xs) (y ∷ ys) = IsSmallOf x y × AreSmallOf xs ys
AreSmallOf _ _ = ⊥

-- An empty text names the default channel.
abbrev pub Names : Bytes → Bytes → Type 0
Names [] c = c ≡ default_channel
Names (x ∷ xs) c = AreSmallOf (x ∷ xs) c × IsName c

-- The text is a name of the channel between white space.
abbrev pub Spells : Bytes → Bytes → Type 0
Spells channel c =
    (before : Bytes) × (name : Bytes) × (after : Bytes) × (channel ≡ before ++ (name ++ after))
    × IsBlank before
    × IsBlank after
    × Names name c

is_channel_byte_iff : (c : ℕ) → (is_channel_byte c ≡ true) ↔ IsChannelByte c
is_channel_byte_iff c = ground arith

are_channel_bytes_iff : (s : Bytes) → (are_channel_bytes s ≡ true) ↔ All IsChannelByte s
unfolding are_channel_bytes
are_channel_bytes_iff [] = ground arith
are_channel_bytes_iff (c ∷ s) = ground (arith, is_channel_byte_iff c, are_channel_bytes_iff s)

matches_channel_iff : (s : Bytes) → (matches_channel s ≡ true) ↔ IsName s
unfolding matches_channel
matches_channel_iff s = ground (arith, are_channel_bytes_iff s)

lower_byte_lem : (x y : ℕ) → IsSmallOf x y → IsChannelByte y → lower_byte x ≡ y
lower_byte_lem x y h k = ground arith

is_space-IsSmallOf : (x y : ℕ) → IsSmallOf x y → IsChannelByte y → is_space x ≡ false
is_space-IsSmallOf x y h k = ground arith

to_lower_lem : (s c : Bytes) → AreSmallOf s c → All IsChannelByte c → to_lower s ≡ c
unfolding to_lower
to_lower_lem [] [] h k = refl
to_lower_lem [] (y ∷ c) h k = elim h [ ]
to_lower_lem (x ∷ s) [] h k = elim h [ ]
to_lower_lem (x ∷ s) (y ∷ c) h k = rw (lower_byte_lem x y h.0 k.0, to_lower_lem s c h.1 k.1) refl

AreSmallOf-HasNoSpace : (s c : Bytes) → AreSmallOf s c → All IsChannelByte c → HasNoSpace s
AreSmallOf-HasNoSpace [] [] h k = tt
AreSmallOf-HasNoSpace [] (y ∷ c) h k = tt
AreSmallOf-HasNoSpace (x ∷ s) [] h k = elim h [ ]
AreSmallOf-HasNoSpace (x ∷ s) (y ∷ c) h k =
    (is_space-IsSmallOf x y h.0 k.0, AreSmallOf-HasNoSpace s c h.1 k.1)

lower_byte-IsSmallOf : (x : ℕ) → IsSmallOf x (lower_byte x)
lower_byte-IsSmallOf x = ground arith

to_lower-AreSmallOf : (s : Bytes) → AreSmallOf s (to_lower s)
unfolding to_lower
to_lower-AreSmallOf [] = tt
to_lower-AreSmallOf (x ∷ s) = (lower_byte-IsSmallOf x, to_lower-AreSmallOf s)

some_same : (d c : Bytes) → some d ≡ some c → d ≡ c
some_same d c h = cc

none_not_some : (c : Bytes) → none ≡ some c → ⊥
none_not_some c h = cc

accepted :
    (d c : Bytes)
    → (if matches_channel d then some d else none) ≡ some c
    → (matches_channel d ≡ true) × (d ≡ c)
accepted d c h = elim (Bool-cases (matches_channel d)) [
  | inl a ↦ (a, some_same d c (rw a at h))
  | inr a ↦ absurd (none_not_some c (rw a at h))
]

-- What `normalize_canonical` makes of the name in small letters.
normalize_canonical_iff :
    (name c : Bytes) → (normalize_canonical (to_lower name) ≡ some c) ↔ Names name c
unfolding normalize_canonical to_lower
normalize_canonical_iff [] c = (λ h. sym (some_same default_channel c h), λ h. ap some (sym h))
normalize_canonical_iff (x ∷ xs) c = (
  λ h.
      let (matches, same) = accepted (to_lower (x ∷ xs)) c h in
      (
        subst (AreSmallOf (x ∷ xs)) same (to_lower-AreSmallOf (x ∷ xs)),
        subst IsName same ((matches_channel_iff (to_lower (x ∷ xs))).0 matches),
      ),
  λ h.
      let same = to_lower_lem (x ∷ xs) c h.0 h.1.0 in
      let matches = ap matches_channel same ∙ (matches_channel_iff c).1 h.1 in
      rw matches (ap some same),
)

Names-HasNoSpace : (name c : Bytes) → Names name c → HasNoSpace name
Names-HasNoSpace [] c h = tt
Names-HasNoSpace (x ∷ xs) c h = AreSmallOf-HasNoSpace (x ∷ xs) c h.0 h.1.0

-- A text is accepted as the name of the channel `c` exactly if it is white space, then a name, then
-- white space, where the name is empty and `c` is the default channel; or the name is `c` itself,
-- with some of its letters as capitals, and `c` has one to 64 small letters, digits, underscores
-- and dashes.
pub normalize_channel_iff :
    (channel c : Bytes) → (normalize_channel channel ≡ some c) ↔ Spells channel c
unfolding normalize_channel canonical
normalize_channel_iff channel c = (
  λ h.
      let (before, after, b, a, cut) = trim_space_split channel in
      (before, trim_space channel, after, cut, b, a, (normalize_canonical_iff _ c).0 h),
  λ (before, name, after, cut, b, a, named).
      ap (λ s. normalize_canonical (to_lower s))
        (ap trim_space cut ∙ trim_space_lem before name after b a (Names-HasNoSpace name c named))
      ∙ (normalize_canonical_iff name c).1 named,
)
