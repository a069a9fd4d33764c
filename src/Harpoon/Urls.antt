-- ===== src/Harpoon/Urls.antt =====
-- URLs as the registry reads them: `normalizeURL`, `hasTraversal` and their neighbours in
-- pkg/runtimeharpoon/registry.go, over what they use of net/url and net/netip. How a URL is written
-- out, parsed and escaped, and how an address is parsed, are parameters.
use tunnel_client.Base.{
  ℕ, ◌+◌, ◌-◌, ◌*◌, Bool, true, false, not, ◌&&◌, ◌||◌, Option, none, some, List, [], ◌∷◌, ◌==◌,
  leb, if◌then◌else◌, Bytes, codes, bytes_eq, is_empty, to_lower, equal_fold, all_digits,
}
use mathlib.Core.List.{reverse}

pub record Url : Type 0 where
  pub scheme : Bytes
  pub opaque : Bytes
  pub user : Option Bytes
  pub host : Bytes
  pub path : Bytes
  pub raw_path : Bytes
  pub raw_query : Bytes
  pub force_query : Bool
  pub fragment : Bytes
  pub raw_fragment : Bytes

pub record Addr : Type 0 where
  pub text : Bytes
  pub is_loopback : Bool
  pub is_private : Bool
  pub is_6 : Bool
  pub zone : Bytes

-- The libraries: `URL.String`, `URL.EscapedPath`, whether `url.Parse` succeeds, `netip.ParseAddr`,
-- and whether `publicsuffix.EffectiveTLDPlusOne` succeeds.
pub record Net : Type 0 where
  pub string : Url → Bytes
  pub escaped_path : Url → Bytes
  pub parses : Bytes → Bool
  pub parse_addr : Bytes → Option Addr
  pub has_registrable_domain : Bytes → Bool

abbrev pub has_prefix : Bytes → Bytes → Bool
has_prefix [] s = true
has_prefix (p ∷ ps) [] = false
has_prefix (p ∷ ps) (c ∷ s) = p == c && has_prefix ps s

-- strings.HasSuffix.
unfoldable pub has_suffix : Bytes → Bytes → Bool
has_suffix p s = has_prefix (reverse p) (reverse s)

first_colon : ℕ → Bytes → Option (Bytes × Bytes)
first_colon c s = if c == 58 then some ([], s) else none

extended : ℕ → Bytes → Option (Bytes × Bytes) → Option (Bytes × Bytes)
unfolding first_colon
extended c s none = first_colon c s
extended c s (some (h, p)) = some (c ∷ h, p)

-- The text before the last colon and the text behind it.
split_last_colon : Bytes → Option (Bytes × Bytes)
unfolding extended
split_last_colon [] = none
split_last_colon (c ∷ s) = extended c s (split_last_colon s)

abbrev tail : Bytes → Bytes
tail [] = []
tail (c ∷ s) = s

abbrev unbracketed : Bytes → Bytes
unbracketed h =
    if has_prefix (codes "[") h && has_prefix (codes "]") (reverse h)
    then tail (reverse (tail (reverse h)))
    else h

abbrev host_and_port : Bytes → Option (Bytes × Bytes) → Bytes × Bytes
host_and_port h none = (unbracketed h, [])
host_and_port h (some (before, port)) =
    if all_digits port then (unbracketed before, port) else (unbracketed h, [])

-- net/url's `splitHostPort`.
unfoldable pub split_host_port : Bytes → Bytes × Bytes
unfolding split_last_colon all_digits
split_host_port h = host_and_port h (split_last_colon h)

abbrev pub hostname : Url → Bytes
hostname u = (split_host_port u.host).0

abbrev pub port : Url → Bytes
port u = (split_host_port u.host).1

unfoldable pub is_https : Url → Bool
is_https u = equal_fold u.scheme (codes "https")

abbrev pub lowered : Url → Url
lowered u = record u { scheme = to_lower u.scheme; host = to_lower u.host }

abbrev pub has_scheme_and_host : Url → Bool
has_scheme_and_host u = not (is_empty u.scheme || is_empty u.host)

-- `none` for an error. A nil URL is the caller's `none`.
unfoldable pub normalize_url : Url → Option Url
normalize_url u = if has_scheme_and_host u then some (lowered u) else none

abbrev key_of : Net → Option Url → Option Bytes
key_of net none = none
key_of net (some u) = if has_scheme_and_host u then some (net.string u) else none

unfoldable pub normalized_url_key : Net → Url → Option Bytes
unfolding normalize_url
normalized_url_key net u = key_of net (normalize_url u)

-- The value of a hexadecimal digit.
abbrev hex_value : ℕ → Option ℕ
hex_value c =
    if leb 48 c && leb c 57
    then some (c - 48)
    else (if leb 97 c && leb c 102
        then some (c - 87)
        else (if leb 65 c && leb c 70 then some (c - 55) else none))

abbrev consed : Option ℕ → Option Bytes → Option Bytes
consed (some b) (some s) = some (b ∷ s)
consed _ _ = none

abbrev hex_pair : Option ℕ → Option ℕ → Option ℕ
hex_pair (some a) (some b) = some (a * 16 + b)
hex_pair _ _ = none

-- url.PathUnescape; `none` for a percent sign without two hexadecimal digits behind it.
unfoldable pub path_unescape : Bytes → Option Bytes
path_unescape [] = some []
path_unescape (c ∷ []) = if c == 37 then none else some (c ∷ [])
path_unescape (c ∷ a ∷ []) =
    let rest = path_unescape (a ∷ []) in if c == 37 then none else consed (some c) rest
path_unescape (c ∷ a ∷ b ∷ s) = elim (c == 37) [
  | true ↦ consed (hex_pair (hex_value a) (hex_value b)) (path_unescape s)
  | false ↦ consed (some c) (path_unescape (a ∷ b ∷ s))
]

abbrev pub is_dots : Option Bytes → Bool
is_dots none = true
is_dots (some s) = bytes_eq s (codes ".") || bytes_eq s (codes "..")

-- strings.SplitSeq by a slash.
abbrev onto_first : ℕ → List Bytes → List Bytes
onto_first c [] = (c ∷ []) ∷ []
onto_first c (s ∷ ss) = (c ∷ s) ∷ ss

unfoldable pub segments : Bytes → List Bytes
segments [] = [] ∷ []
segments (c ∷ s) = let rest = segments s in if c == 47 then [] ∷ rest else onto_first c rest

unfoldable pub is_bad_segment : Bytes → Bool
unfolding path_unescape
is_bad_segment s = not (is_empty s) && is_dots (path_unescape s)

abbrev pub has_bad_segment : List Bytes → Bool
has_bad_segment [] = false
has_bad_segment (s ∷ ss) = is_bad_segment s || has_bad_segment ss

unfoldable pub has_traversal : Bytes → Bool
unfolding segments is_bad_segment
has_traversal raw_path = has_bad_segment (segments raw_path)
