-- ===== src/ExtraHeaders.antt =====
-- Extra HTTP headers of the configuration: pkg/runtimeconfig/http_headers.go, and `resolveHeaderValue` of
-- pkg/runtimeconfig/config.go. A map is the list of its entries in the order in which it is visited.
-- The JSON codec, the process environment and the files are parameters.
pub mod Names
pub mod Normal
pub mod RoundTrip
use tunnel_client.Base.{
  ℕ, ◌+◌, Bool, true, false, not, ◌&&◌, ◌||◌, Option, none, some, List, [], ◌∷◌, ◌++◌, ◌==◌, leb,
  ltb, if◌then◌else◌, Bytes, codes, bytes_eq, is_empty, trim_space, to_lower, lower_byte, ◌-◌,
}
use mathlib.Core.List.{reverse}

abbrev pub Headers : Type 0
Headers = List (Bytes × Bytes)

abbrev pub lookup : Bytes → Headers → Option Bytes
lookup name [] = none
lookup name ((n, v) ∷ hs) = if bytes_eq name n then some v else lookup name hs

abbrev pub is_letter_or_digit : ℕ → Bool
is_letter_or_digit c = (leb 97 c && leb c 122) || ((leb 65 c && leb c 90) || (leb 48 c && leb c 57))

abbrev pub is_mark : ℕ → Bytes → Bool
is_mark c [] = false
is_mark c (m ∷ ms) = c == m || is_mark c ms

abbrev pub is_name_byte : ℕ → Bool
is_name_byte c = is_letter_or_digit c || is_mark c (codes "!#$%&'*+-.^_`|~")

abbrev pub are_name_bytes : Bytes → Bool
are_name_bytes [] = true
are_name_bytes (c ∷ s) = is_name_byte c && are_name_bytes s

unfoldable pub valid_http_header_field_name : Bytes → Bool
valid_http_header_field_name name = not (is_empty name) && are_name_bytes name

unfoldable pub valid_http_header_field_value : Bytes → Bool
valid_http_header_field_value [] = true
valid_http_header_field_value (c ∷ s) =
    not ((ltb c 32 && not (c == 9)) || c == 127) && valid_http_header_field_value s

unfoldable pub valid_http_header : Bytes → Bytes → Bool
unfolding valid_http_header_field_name valid_http_header_field_value
valid_http_header name value =
    valid_http_header_field_name name && valid_http_header_field_value value

abbrev pub upper_byte : ℕ → ℕ
upper_byte c = if leb 97 c && leb c 122 then c - 32 else c

-- http.CanonicalHeaderKey of a valid name: a letter is in upper case at the start and behind a dash.
abbrev pub canonical_from : (upper : Bool) → Bytes → Bytes
canonical_from upper [] = []
canonical_from upper (c ∷ s) =
    (if upper then upper_byte c else lower_byte c) ∷ canonical_from (c == 45) s

unfoldable pub canonical_header_key : Bytes → Bytes
canonical_header_key name = canonical_from true name

pub data HeaderError : Type 0 where
  invalid_name invalid_value conflicting_values encoding_failed bad_payload unresolved : HeaderError

pub data Outcome (A : Type 0) : Type 0 where
  done : A → Outcome A
  refused : HeaderError → Outcome A

abbrev pub append_header : Headers → Bytes → Bytes → Headers
append_header [] name value = (name, value) ∷ []
append_header (h ∷ hs) name value = h ∷ append_header hs name value

abbrev pub added : Headers → Bytes → Bytes → Option Bytes → Outcome Headers
added acc key value none = done (append_header acc key value)
added acc key value (some existing) =
    if bytes_eq existing value then done acc else refused conflicting_values

-- One entry, with the entries before it normalized.
unfoldable pub add_header : Headers → Bytes × Bytes → Outcome Headers
unfolding valid_http_header_field_name valid_http_header_field_value canonical_header_key
add_header acc (name, value) =
    if not (valid_http_header_field_name name)
    then refused invalid_name
    else if not (valid_http_header_field_value value)
    then refused invalid_value
    else added acc (canonical_header_key name) value (lookup (canonical_header_key name) acc)

abbrev pub then_do : {A : Type 0} {B : Type 0} → (A → Outcome B) → Outcome A → Outcome B
then_do f (done a) = f a
then_do f (refused e) = refused e

unfoldable pub normalize_from : Headers → Headers → Outcome Headers
unfolding add_header
normalize_from acc [] = done acc
normalize_from acc (h ∷ hs) = then_do (λ next. normalize_from next hs) (add_header acc h)

unfoldable pub normalize_extra_headers : Headers → Outcome Headers
unfolding normalize_from
normalize_extra_headers headers = normalize_from [] headers

abbrev pub encoded_prefix : Bytes
encoded_prefix = 0 ∷ codes "tunnel-client-extra-header-map-v1:"

abbrev pub has_prefix : Bytes → Bytes → Bool
has_prefix [] s = true
has_prefix (p ∷ ps) [] = false
has_prefix (p ∷ ps) (c ∷ s) = p == c && has_prefix ps s

abbrev pub drop_same : Bytes → Bytes → Bytes
drop_same [] s = s
drop_same (p ∷ ps) [] = []
drop_same (p ∷ ps) (c ∷ s) = drop_same ps s

-- strings.TrimPrefix.
abbrev pub trim_prefix : Bytes → Bytes → Bytes
trim_prefix p s = if has_prefix p s then drop_same p s else s

abbrev pub contains_byte : ℕ → Bytes → Bool
contains_byte c [] = false
contains_byte c (d ∷ s) = c == d || contains_byte c s

-- `envNamePattern`.
abbrev pub is_env_start : ℕ → Bool
is_env_start c = (leb 97 c && leb c 122) || ((leb 65 c && leb c 90) || c == 95)

abbrev pub are_env_bytes : Bytes → Bool
are_env_bytes [] = true
are_env_bytes (c ∷ s) = (is_letter_or_digit c || c == 95) && are_env_bytes s

abbrev pub is_env_name : Bytes → Bool
is_env_name [] = false
is_env_name (c ∷ s) = is_env_start c && are_env_bytes s

-- A line feed, with a carriage return before it, or a carriage return, at the start of a reversed
-- text.
abbrev pub drop_return : Bytes → Bytes
drop_return [] = []
drop_return (c ∷ s) = if c == 13 then s else c ∷ s

abbrev pub drop_line_ending : Bytes → Bytes
drop_line_ending [] = []
drop_line_ending (c ∷ s) = if c == 10 then drop_return s else (if c == 13 then s else c ∷ s)

unfoldable pub trim_one_trailing_line_ending : Bytes → Bytes
trim_one_trailing_line_ending value = reverse (drop_line_ending (reverse value))

-- The environment of the process and its files.
pub record Sources : Type 0 where
  pub lookup_env : Bytes → Option Bytes
  pub read_file : Bytes → Option Bytes

abbrev pub trimmed_variable : Option Bytes → Option Bytes
trimmed_variable none = none
trimmed_variable (some v) = some (trim_space v)

abbrev pub trimmed_file : Option Bytes → Option Bytes
trimmed_file none = none
trimmed_file (some v) = some (trim_one_trailing_line_ending v)

-- What a trimmed value refers to; none where that cannot be had.
abbrev pub referred : Sources → Bytes → Option Bytes
referred sources raw =
    if has_prefix (codes "env:") (to_lower raw)
    then (if is_env_name (trim_space (drop_same (codes "env:") raw))
        then trimmed_variable (sources.lookup_env (trim_space (drop_same (codes "env:") raw)))
        else none)
    else if has_prefix (codes "file:") (to_lower raw)
    then (if is_empty (trim_space (drop_same (codes "file:") raw))
        then none
        else trimmed_file (sources.read_file (trim_space (drop_same (codes "file:") raw))))
    else some raw

abbrev pub checked_value : Option Bytes → Outcome Bytes
checked_value none = refused unresolved
checked_value (some value) =
    if is_empty (trim_space value) || (contains_byte 13 value || contains_byte 10 value)
    then refused unresolved
    else done value

unfoldable pub resolve_header_value : Sources → Bytes → Outcome Bytes
unfolding trim_space to_lower trim_one_trailing_line_ending
resolve_header_value sources raw = checked_value (referred sources (trim_space raw))

-- The loop over the normalized entries, which puts each resolved value in place.
unfoldable pub resolve_all : Sources → Headers → Outcome Headers
unfolding resolve_header_value
resolve_all sources [] = done []
resolve_all sources ((name, value) ∷ hs) =
    let rest = resolve_all sources hs in
    then_do (λ resolved. then_do (λ rs. done ((name, resolved) ∷ rs)) rest)
      (resolve_header_value sources value)

abbrev pub unmarshalled : Option Headers → Outcome Headers
unmarshalled none = refused bad_payload
unmarshalled (some hs) = done hs

abbrev pub payload_of : Option Bytes → Outcome Bytes
payload_of none = refused encoding_failed
payload_of (some payload) = done (encoded_prefix ++ payload)

module _ (marshal : Headers → Option Bytes) (unmarshal : Bytes → Option Headers) where
  unfoldable pub encode_extra_header_map : Headers → Outcome Bytes
  unfolding normalize_extra_headers
  encode_extra_header_map headers =
      then_do (λ normalized. payload_of (marshal normalized)) (normalize_extra_headers headers)

  unfoldable pub decode_extra_header_map : Sources → Bytes → Outcome Headers
  unfolding normalize_extra_headers resolve_all
  decode_extra_header_map sources raw = then_do normalize_extra_headers (
      then_do (resolve_all sources) (
        then_do normalize_extra_headers
          (unmarshalled (unmarshal (trim_prefix encoded_prefix raw)))))
