-- ===== src/Tests/ExtraHeaders.antt =====
-- Extra headers at concrete values, with a codec that marks each byte.
use tunnel_client.Base.{
  ℕ, zero, suc, ◌≡◌, refl, ap, true, Option, none, some, [], ◌∷◌, Bytes, bytes_eq, codes,
  trim_space, to_lower,
}
use tunnel_client.ExtraHeaders.{
  Headers, lookup, done, refused, conflicting_values, normalize_extra_headers, has_prefix,
  encoded_prefix, Sources, resolve_header_value, encode_extra_header_map, decode_extra_header_map,
}
use tunnel_client.ExtraHeaders.Normal.{IsLiteral, HasLiterals}
use tunnel_client.ExtraHeaders.RoundTrip.{IsCodec, decode-encode}

abbrev name_bytes : Bytes → Bytes → Bytes
name_bytes [] rest = rest
name_bytes (c ∷ n) rest = 1 ∷ c ∷ name_bytes n rest

abbrev value_bytes : Bytes → Bytes → Bytes
value_bytes [] rest = rest
value_bytes (c ∷ v) rest = 2 ∷ c ∷ value_bytes v rest

abbrev write_map : Headers → Bytes
write_map [] = []
write_map ((n, v) ∷ hs) = name_bytes n (value_bytes v (0 ∷ write_map hs))

abbrev push_name : ℕ → Headers → Headers
push_name c [] = []
push_name c ((n, v) ∷ hs) = (c ∷ n, v) ∷ hs

abbrev push_value : ℕ → Headers → Headers
push_value c [] = []
push_value c ((n, v) ∷ hs) = (n, c ∷ v) ∷ hs

abbrev read_map : Bytes → Headers
read_map [] = []
read_map (zero ∷ s) = ([], []) ∷ read_map s
read_map (suc k ∷ []) = []
read_map (suc zero ∷ c ∷ s) = push_name c (read_map s)
read_map (suc (suc k) ∷ c ∷ s) = push_value c (read_map s)

read_map-value_bytes :
    (v s : Bytes) (hs : Headers)
    → read_map s ≡ ([], []) ∷ hs
    → read_map (value_bytes v s) ≡ ([], v) ∷ hs
read_map-value_bytes [] s hs e = e
read_map-value_bytes (c ∷ v) s hs e = ap (push_value c) (read_map-value_bytes v s hs e)

read_map-name_bytes :
    (n v s : Bytes) (hs : Headers)
    → read_map s ≡ ([], v) ∷ hs
    → read_map (name_bytes n s) ≡ (n, v) ∷ hs
read_map-name_bytes [] v s hs e = e
read_map-name_bytes (c ∷ n) v s hs e = ap (push_name c) (read_map-name_bytes n v s hs e)

read_map-write_map : (hs : Headers) → read_map (write_map hs) ≡ hs
read_map-write_map [] = refl
read_map-write_map ((n, v) ∷ hs) =
    read_map-name_bytes n v (value_bytes v (0 ∷ write_map hs)) hs (
      read_map-value_bytes v (0 ∷ write_map hs) hs (ap (λ r. ([], []) ∷ r) (read_map-write_map hs)))

abbrev marshal : Headers → Option Bytes
marshal hs = some (write_map hs)

abbrev unmarshal : Bytes → Option Headers
unmarshal payload = some (read_map payload)

marks_bytes : IsCodec marshal unmarshal
marks_bytes hs d = (write_map hs, refl, (hs, ap some (read_map-write_map hs), d, λ name. refl))

abbrev sources : Sources
sources = record { lookup_env = λ name. some (codes "secret"); read_file = λ path. none }

abbrev headers : Headers
headers =
    (codes "x-team", codes "blue")
    ∷ (codes "X-TEAM", codes "blue")
    ∷ (codes "accept", codes "text/html")
    ∷ []

abbrev normal_headers : Headers
normal_headers = (codes "X-Team", codes "blue") ∷ (codes "Accept", codes "text/html") ∷ []

normalizes : normalize_extra_headers headers ≡ done normal_headers
unfolding normalize_extra_headers bytes_eq
normalizes = refl

conflict_test :
    normalize_extra_headers ((codes "a", codes "1") ∷ (codes "A", codes "2") ∷ [])
    ≡ refused conflicting_values
unfolding normalize_extra_headers bytes_eq
conflict_test = refl

variable_test : resolve_header_value sources (codes " ENV: TOKEN ") ≡ done (codes "secret")
unfolding resolve_header_value
variable_test = refl

blue-IsLiteral : IsLiteral (codes "blue")
unfolding trim_space to_lower
blue-IsLiteral = record { trimmed = refl; filled = refl; no_variable = refl; no_file = refl }

html-IsLiteral : IsLiteral (codes "text/html")
unfolding trim_space to_lower
html-IsLiteral = record { trimmed = refl; filled = refl; no_variable = refl; no_file = refl }

headers-HasLiterals : HasLiterals headers
headers-HasLiterals = (blue-IsLiteral, (blue-IsLiteral, (html-IsLiteral, tt)))

decode-encode_example :
    (raw : Bytes) × (encode_extra_header_map marshal unmarshal headers ≡ done raw)
    × (has_prefix encoded_prefix raw ≡ true)
    × ((rs : Headers) × (decode_extra_header_map marshal unmarshal sources raw ≡ done rs)
        × ((name : Bytes) → lookup name rs ≡ lookup name normal_headers))
decode-encode_example =
    decode-encode marshal unmarshal sources headers normal_headers marks_bytes headers-HasLiterals
      normalizes
