-- ===== src/Harpoon/Hosts.antt =====
-- Which discovered URLs register themselves: `shouldRegisterURLRecord` and its policies in
-- pkg/runtimeharpoon/host_registration.go, and pkg/runtimeharpoon/internal/hostclassifier/classifier.go. A regular
-- expression is its text and what it matches.
use tunnel_client.Base.{
  ℕ, Bool, true, false, not, ◌&&◌, ◌||◌, Option, none, some, List, [], ◌∷◌, ◌++◌, ◌==◌, leb,
  if◌then◌else◌, Bytes, codes, bytes_eq, is_empty, to_lower, trim_space, parse_uint,
}
use mathlib.Core.List.{reverse}
use tunnel_client.Harpoon.Urls.{Url, Addr, Net, has_prefix, has_suffix, hostname, port}
use tunnel_client.Harpoon.Metadata.{normalize_token}
use tunnel_client.Harpoon.Labels.{decimal}

pub data TagKey : Type 0 where
  unspecified source_key role_key index_key group_key : TagKey

pub record UrlRecord : Type 0 where
  pub url : Option Url
  pub description : Bytes
  pub tags : List (TagKey × Bytes)
  pub unix_socket_path : Bytes
  pub disallow_private_host_registration : Bool

abbrev pub key_number : TagKey → ℕ
key_number unspecified = 0
key_number source_key = 1
key_number role_key = 2
key_number index_key = 3
key_number group_key = 4

unfoldable pub tag_value : List (TagKey × Bytes) → TagKey → Bytes
tag_value [] key = []
tag_value ((k, v) ∷ tags) key =
    let rest = tag_value tags key in if key_number k == key_number key then v else rest

pub record HostClassifier : Type 0 where
  pub include_loopback : Bool
  pub include_private : Bool
  pub suffixes : List Bytes
  pub regexes : List (Bytes × (Bytes → Bool))

-- strings.TrimSuffix of a dot.
abbrev drop_dot : Bytes → Bytes
drop_dot [] = []
drop_dot (c ∷ s) = if c == 46 then s else c ∷ s

unfoldable pub trim_dot : Bytes → Bytes
trim_dot s = reverse (drop_dot (reverse s))

abbrev dotted : Bytes → Bytes
dotted s = if has_prefix (codes ".") s then s else 46 ∷ s

unfoldable pub normalize_suffixes : List Bytes → List Bytes
unfolding trim_space to_lower
normalize_suffixes [] = []
normalize_suffixes (raw ∷ values) =
    let rest = normalize_suffixes values in
    let suffix = trim_space (to_lower raw) in if is_empty suffix then rest else dotted suffix ∷ rest

abbrev verdict_or : Bool → Bytes → Bool × Bytes → Bool × Bytes
verdict_or b reason otherwise = if b then (true, reason) else otherwise

abbrev by_regexes : Bytes → List (Bytes × (Bytes → Bool)) → Bool × Bytes
by_regexes host [] = (false, [])
by_regexes host ((text, matches) ∷ rs) =
    let rest = by_regexes host rs in verdict_or (matches host) (codes "regex:" ++ text) rest

abbrev by_suffixes : Bytes → List Bytes → Bool × Bytes → Bool × Bytes
by_suffixes host [] otherwise = otherwise
by_suffixes host (suffix ∷ ss) otherwise =
    let rest = by_suffixes host ss otherwise in
    verdict_or
      (not (is_empty suffix) && (bytes_eq host (drop_dot suffix) || has_suffix suffix host))
      (codes "suffix:" ++ suffix) rest

abbrev by_address : HostClassifier → Option Addr → Bool × Bytes → Bool × Bytes
by_address c none otherwise = otherwise
by_address c (some a) otherwise =
    verdict_or (c.include_loopback && a.is_loopback) (codes "loopback")
      (verdict_or (c.include_private && a.is_private) (codes "private-ip") otherwise)

abbrev of_normal_host : Net → HostClassifier → Bytes → Bool × Bytes
of_normal_host net c host =
    verdict_or (c.include_loopback && bytes_eq host (codes "localhost")) (codes "loopback")
      (by_address c (net.parse_addr host) (by_suffixes host c.suffixes (by_regexes host c.regexes)))

unfoldable pub is_private_host : Net → HostClassifier → Bytes → Bool × Bytes
unfolding trim_space to_lower trim_dot has_suffix
is_private_host net c host =
    if is_empty (trim_space host)
    then (false, [])
    else of_normal_host net c (trim_dot (to_lower (trim_space host)))

unfoldable pub is_private_url : Net → HostClassifier → Url → Bool × Bytes
unfolding is_private_host to_lower
is_private_url net c u =
    if bytes_eq (to_lower u.scheme) (codes "http") || bytes_eq (to_lower u.scheme) (codes "https")
    then is_private_host net c (hostname u)
    else (false, codes "unsupported-scheme")

unfoldable pub is_oauth_url_record : UrlRecord → Bool
unfolding tag_value normalize_token
is_oauth_url_record rec = bytes_eq (normalize_token (tag_value rec.tags source_key)) (codes "oauth")

unfoldable pub normalized_hostname : Url → Bytes
unfolding trim_dot to_lower trim_space
normalized_hostname u = trim_dot (to_lower (trim_space (hostname u)))

pub record Origin : Type 0 where
  pub scheme : Bytes
  pub host : Bytes
  pub port : Bytes

abbrev pub is_same_origin : Origin → Origin → Bool
is_same_origin a b =
    bytes_eq a.scheme b.scheme && (bytes_eq a.host b.host && bytes_eq a.port b.port)

abbrev address_text : Bytes → Option Addr → Bytes
address_text host none = host
address_text host (some a) = a.text

abbrev in_int64 : Option ℕ → Option ℕ
in_int64 none = none
in_int64 (some n) = if leb n 9223372036854775807 then some n else none

-- strconv.Atoi, on a text of digits.
unfoldable pub atoi : Bytes → Option ℕ
unfolding parse_uint
atoi s = in_int64 (parse_uint s)

-- `strconv.Itoa` of the port, where it is a number.
unfoldable pub plain_port : Bytes → Option ℕ → Bytes
unfolding decimal
plain_port p none = p
plain_port p (some n) = decimal n

unfoldable pub origin_port : Bytes → Bytes → Bytes
unfolding atoi plain_port
origin_port scheme p =
    if is_empty p
    then (if bytes_eq scheme (codes "http") then codes "80" else codes "443")
    else plain_port p (atoi p)

unfoldable pub new_protected_resource_origin : Net → Url → Option Origin
unfolding normalized_hostname to_lower trim_space origin_port
new_protected_resource_origin net u =
    let scheme = to_lower (trim_space u.scheme) in
    let host = normalized_hostname u in
    if not (bytes_eq scheme (codes "http") || bytes_eq scheme (codes "https"))
    then none
    else (if is_empty host
        then none
        else some record {
          scheme = scheme;
          host = address_text host (net.parse_addr host);
          port = origin_port scheme (port u);
        })
