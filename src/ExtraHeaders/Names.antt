-- ===== src/ExtraHeaders/Names.antt =====
-- Canonical header names: `validHTTPHeaderFieldName` of pkg/runtimeconfig/http_headers.go and
-- http.CanonicalHeaderKey.
use tunnel_client.Base.{
  ℕ, ◌≡◌, refl, Bool, true, false, ◌&&◌, [], ◌∷◌, ◌==◌, if◌then◌else◌, Bytes, lower_byte, arith,
}
use tunnel_client.ExtraHeaders.{
  is_name_byte, are_name_bytes, valid_http_header_field_name, upper_byte, canonical_from,
  canonical_header_key,
}

abbrev cased : Bool → ℕ → ℕ
cased upper c = if upper then upper_byte c else lower_byte c

cased_twice : (upper : Bool) (c : ℕ) → cased upper (cased upper c) ≡ cased upper c
cased_twice upper c = ground arith

cased_dash : (upper : Bool) (c : ℕ) → (cased upper c == 45) ≡ (c == 45)
cased_dash upper c = ground arith

is_name_byte-cased :
    (upper : Bool) (c : ℕ) → is_name_byte c ≡ true → is_name_byte (cased upper c) ≡ true
is_name_byte-cased upper c h = ground arith

canonical_from_twice :
    (upper : Bool) (s : Bytes)
    → canonical_from upper (canonical_from upper s) ≡ canonical_from upper s
canonical_from_twice upper [] = refl
canonical_from_twice upper (c ∷ s) =
    rw (cased_dash upper c, cased_twice upper c, canonical_from_twice (c == 45) s) refl

and_step :
    (a b c d : Bool)
    → (a ≡ true → c ≡ true)
    → (b ≡ true → d ≡ true)
    → (a && b) ≡ true
    → (c && d) ≡ true
and_step true true c d f g h = rw (f refl, g refl) refl
and_step true false c d f g h = cc
and_step false b c d f g h = cc

are_name_bytes-canonical_from :
    (upper : Bool) (s : Bytes)
    → are_name_bytes s ≡ true
    → are_name_bytes (canonical_from upper s) ≡ true
are_name_bytes-canonical_from upper [] h = refl
are_name_bytes-canonical_from upper (c ∷ s) h =
    and_step (is_name_byte c) (are_name_bytes s) (is_name_byte (cased upper c))
      (are_name_bytes (canonical_from (c == 45) s)) (is_name_byte-cased upper c)
      (are_name_bytes-canonical_from (c == 45) s) h

pub canonical_header_key_twice :
    (s : Bytes) → canonical_header_key (canonical_header_key s) ≡ canonical_header_key s
unfolding canonical_header_key
canonical_header_key_twice s = canonical_from_twice true s

pub valid_name-canonical_header_key :
    (s : Bytes)
    → valid_http_header_field_name s ≡ true
    → valid_http_header_field_name (canonical_header_key s) ≡ true
unfolding valid_http_header_field_name canonical_header_key
valid_name-canonical_header_key [] h = cc
valid_name-canonical_header_key (c ∷ s) h = are_name_bytes-canonical_from true (c ∷ s) h
