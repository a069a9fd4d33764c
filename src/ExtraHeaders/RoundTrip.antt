-- ===== src/ExtraHeaders/RoundTrip.antt =====
-- A map of extra headers survives its encoding: pkg/runtimeconfig/http_headers.go.
use tunnel_client.Base.{
  ◌≡◌, refl, ap, ◌∙◌, sym, subst, Bool, true, false, Option, none, some, [], ◌∷◌, ◌++◌,
  if◌then◌else◌, Bytes, bytes_eq, bytes_eq_iff, arith, Bool-cases, inl, inr,
}
use tunnel_client.ExtraHeaders.{
  Headers, lookup, valid_http_header_field_value, Outcome, done, append_header, add_header, then_do,
  normalize_from, normalize_extra_headers, encoded_prefix, has_prefix, trim_prefix, contains_byte,
  Sources, resolve_header_value, resolve_all, unmarshalled, encode_extra_header_map,
  decode_extra_header_map,
}
use tunnel_client.ExtraHeaders.Normal.{
  IsLiteral, IsNormalEntry, Each, IsDistinct, IsNormal, normalize_from-IsNormal, bytes_eq_sym,
  lookup-append_header, HasLiterals, if_none,
}

first_value :
    (b : Bool) (v value : Bytes) (o : Option Bytes)
    → b ≡ true
    → (if b then some v else o) ≡ some value
    → v ≡ value
first_value true v value o a e = cc
first_value false v value o a e = cc

Each-lookup :
    (P : Bytes → Bytes → Type 0) (hs : Headers) (name value : Bytes)
    → Each P hs
    → lookup name hs ≡ some value
    → P name value
Each-lookup P [] name value h e = cc
Each-lookup P ((n, v) ∷ hs) name value h e = elim (Bool-cases (bytes_eq name n)) [
  | inl a ↦
      subst (λ x. P x value) (sym ((bytes_eq_iff name n).0 a))
        (subst (P n) (first_value (bytes_eq name n) v value (lookup name hs) a e) h.0)
  | inr b ↦
      Each-lookup P hs name value h.1
        (subst (λ t. (if t then some v else lookup name hs) ≡ some value) b e)
]

-- Names of the tail are not the first one.
lookup_later :
    (name n v value : Bytes) (ks : Headers)
    → lookup n ks ≡ none
    → lookup name ks ≡ some value
    → lookup name ((n, v) ∷ ks) ≡ some value
lookup_later name n v value ks d e = elim (Bool-cases (bytes_eq name n)) [
  | inl a ↦ cc ((bytes_eq_iff name n).0 a)
  | inr b ↦ rw b e
]

Each-from_lookup :
    (P : Bytes → Bytes → Type 0) (ks : Headers)
    → IsDistinct ks
    → ((name value : Bytes) → lookup name ks ≡ some value → P name value)
    → Each P ks
Each-from_lookup P [] d f = tt
Each-from_lookup P ((n, v) ∷ ks) d f = (
  f n v (rw ((bytes_eq_iff n n).1 refl) refl),
  Each-from_lookup P ks d.1 (λ name value e. f name value (lookup_later name n v value ks d.0 e)),
)

abbrev append_all : Headers → Headers → Headers
append_all acc [] = acc
append_all acc ((n, v) ∷ ks) = append_all (append_header acc n v) ks

append_all-cons :
    (acc ks : Headers) (n v : Bytes) → append_all ((n, v) ∷ acc) ks ≡ (n, v) ∷ append_all acc ks
append_all-cons acc [] n v = refl
append_all-cons acc ((m, w) ∷ ks) n v = append_all-cons (append_header acc m w) ks n v

append_all_nil : (ks : Headers) → append_all [] ks ≡ ks
append_all_nil [] = refl
append_all_nil ((n, v) ∷ ks) = append_all-cons [] ks n v ∙ ap (λ x. (n, v) ∷ x) (append_all_nil ks)

-- No name of the second list is in the first.
abbrev AreApart : Headers → Headers → Type 0
AreApart acc ks = Each (λ name value. lookup name acc ≡ none) ks

AreApart-nil : (ks : Headers) → AreApart [] ks
AreApart-nil [] = tt
AreApart-nil ((n, v) ∷ ks) = (refl, AreApart-nil ks)

AreApart-append_header :
    (acc ks : Headers) (n v : Bytes)
    → lookup n ks ≡ none
    → AreApart acc ks
    → AreApart (append_header acc n v) ks
AreApart-append_header acc [] n v e h = tt
AreApart-append_header acc ((m, w) ∷ ks) n v e h =
    let f : (bytes_eq n m ≡ false) × (lookup n ks ≡ none) =
      if_none (bytes_eq n m) w (lookup n ks) e in
    (
      lookup-append_header acc m n v (bytes_eq_sym n m f.0) ∙ h.0,
      AreApart-append_header acc ks n v f.1 h.1,
    )

add_header-normal :
    (acc : Headers) (n v : Bytes)
    → IsNormalEntry n v
    → lookup n acc ≡ none
    → add_header acc (n, v) ≡ done (append_header acc n v)
unfolding add_header
add_header-normal acc n v p e = rw (p.valid_name, p.valid_value, p.canonical, e) refl

normalize_from-normal :
    (acc ks : Headers)
    → Each IsNormalEntry ks
    → IsDistinct ks
    → AreApart acc ks
    → normalize_from acc ks ≡ done (append_all acc ks)
unfolding normalize_from
normalize_from-normal acc [] p d a = refl
normalize_from-normal acc ((n, v) ∷ ks) p d a = rw (add_header-normal acc n v p.0 a.0) (
    normalize_from-normal (append_header acc n v) ks p.1 d.1
      (AreApart-append_header acc ks n v d.0 a.1))

no_control :
    (v : Bytes)
    → valid_http_header_field_value v ≡ true
    → (contains_byte 13 v ≡ false) × (contains_byte 10 v ≡ false)
unfolding valid_http_header_field_value
no_control [] h = (refl, refl)
no_control (c ∷ v) h = ground (arith, no_control v)

resolve_header_value-literal :
    (sources : Sources) (v : Bytes)
    → IsLiteral v
    → valid_http_header_field_value v ≡ true
    → resolve_header_value sources v ≡ done v
unfolding resolve_header_value
resolve_header_value-literal sources v l h =
    rw
      (
        l.trimmed,
        l.no_variable,
        l.no_file,
        l.trimmed,
        l.filled,
        (no_control v h).0,
        (no_control v h).1,
      )
      refl

resolve_all-normal :
    (sources : Sources) (ks : Headers) → Each IsNormalEntry ks → resolve_all sources ks ≡ done ks
unfolding resolve_all
resolve_all-normal sources [] p = refl
resolve_all-normal sources ((n, v) ∷ ks) p =
    rw
      (
        resolve_header_value-literal sources v p.0.literal p.0.valid_value,
        resolve_all-normal sources ks p.1,
      )
      refl

trim_prefix-encoded :
    (payload : Bytes) → trim_prefix encoded_prefix (encoded_prefix ++ payload) ≡ payload
trim_prefix-encoded payload = refl

-- The codec gives back a map, which has each name once, that it has written: the same entries in
-- any order.
abbrev pub IsCodec : (Headers → Option Bytes) → (Bytes → Option Headers) → Type 0
IsCodec marshal unmarshal =
    (hs : Headers)
    → IsDistinct hs
    → (payload : Bytes) × (marshal hs ≡ some payload)
      × ((ks : Headers) × (unmarshal payload ≡ some ks)
          × IsDistinct ks
          × ((name : Bytes) → lookup name ks ≡ lookup name hs))

decoded_lem :
    (sources : Sources) (n ks : Headers)
    → IsNormal n
    → IsDistinct ks
    → ((name : Bytes) → lookup name ks ≡ lookup name n)
    → then_do normalize_extra_headers (then_do (resolve_all sources) (normalize_extra_headers ks))
      ≡ done ks
unfolding normalize_extra_headers
decoded_lem sources n ks h d same =
    let p : Each IsNormalEntry ks =
      Each-from_lookup IsNormalEntry ks d
        (λ name value e. Each-lookup IsNormalEntry n name value h.entries (sym (same name) ∙ e)) in
    let again : normalize_from [] ks ≡ done ks =
      normalize_from-normal [] ks p d (AreApart-nil ks) ∙ ap done (append_all_nil ks) in
    rw (again, resolve_all-normal sources ks p, again) refl

abbrev decode_tail : Sources → Option Headers → Outcome Headers
decode_tail sources o =
    then_do normalize_extra_headers
      (then_do (resolve_all sources) (then_do normalize_extra_headers (unmarshalled o)))

-- Headers whose values are literal and that normalize are encoded to a text that has the prefix of
-- such texts and decodes, whatever the environment and the files are, to a map with the normalized headers: each name has there the
-- value that it has in the normalized ones. The JSON codec is one that gives back a map that it has
-- written, with its entries in any order.
pub decode-encode :
    (marshal : Headers → Option Bytes) (unmarshal : Bytes → Option Headers) (sources : Sources)
    (headers n : Headers)
    → IsCodec marshal unmarshal
    → HasLiterals headers
    → normalize_extra_headers headers ≡ done n
    → (raw : Bytes) × (encode_extra_header_map marshal unmarshal headers ≡ done raw)
      × (has_prefix encoded_prefix raw ≡ true)
      × ((rs : Headers) × (decode_extra_header_map marshal unmarshal sources raw ≡ done rs)
          × ((name : Bytes) → lookup name rs ≡ lookup name n))
unfolding encode_extra_header_map decode_extra_header_map normalize_extra_headers
decode-encode marshal unmarshal sources headers n codec l e =
    let h : IsNormal n =
      normalize_from-IsNormal headers [] n l (record { entries = tt; distinct = tt }) e in
    let c = codec n h.distinct in
    (
      encoded_prefix ++ c.0,
      rw (e, c.1) refl,
      refl,
      (c.2.0, ap (decode_tail sources) c.2.1 ∙ decoded_lem sources n c.2.0 h c.2.2 c.2.3, c.2.3),
    )
