-- ===== src/Harpoon/Redirect.antt =====
-- Why a redirect is not allowed: `ExplainBlockedRedirect` in pkg/runtimeharpoon/registry.go, and its
-- cache. The digest of a long key is a parameter.
pub mod Cache
pub mod Calls
pub mod Faithful
pub mod Explained
use tunnel_client.Base.{
  ℕ, ◌+◌, Bool, true, false, not, ◌&&◌, ◌||◌, Option, none, some, List, [], ◌∷◌, ◌++◌, ◌==◌, leb,
  ltb, if◌then◌else◌, Bytes, codes, bytes_eq, is_empty, to_lower, length, is_some,
}
use mathlib.Core.List.{reverse}
use tunnel_client.Harpoon.Urls.{Url, Net, has_scheme_and_host, normalized_url_key, has_traversal}
use tunnel_client.Harpoon.Metadata.{holds_text}
use tunnel_client.Harpoon.Target.{Target}
use tunnel_client.Harpoon.Registry.{Registry}

pub data RedirectMismatchKind : Type 0 where
  scheme_http_to_https scheme_https_to_http path_mismatch : RedirectMismatchKind
  query_mismatch host_mismatch not_allowlisted_other : RedirectMismatchKind

-- The reason is one text throughout, and left out.
pub record RedirectMismatchDetails : Type 0 where
  pub kind : RedirectMismatchKind
  pub expected_url : Bytes
  pub expected_scheme : Bytes
  pub actual_scheme : Bytes

pub record RedirectUrlMatch : Type 0 where
  pub scheme : Bytes
  pub host : Bytes
  pub exact_path : Bytes
  pub comparable_path : Bytes
  pub query : Bytes

abbrev drop_slashes : Bytes → Bytes
drop_slashes [] = []
drop_slashes (c ∷ s) = let rest = drop_slashes s in if c == 47 then rest else c ∷ s

abbrev or_root : Bytes → Bytes
or_root path = if is_empty path then codes "/" else path

unfoldable pub comparable_redirect_path : Bytes → Bytes
comparable_redirect_path path = or_root (reverse (drop_slashes (reverse path)))

unfoldable pub analyze_redirect_url : Net → Url → RedirectUrlMatch
unfolding comparable_redirect_path to_lower
analyze_redirect_url net raw = record {
  scheme = to_lower raw.scheme;
  host = to_lower raw.host;
  exact_path = or_root (net.escaped_path raw);
  comparable_path = comparable_redirect_path (or_root (net.escaped_path raw));
  query = raw.raw_query;
}

unfoldable pub scheme_mismatch_kind : Bytes → Bytes → RedirectMismatchKind
scheme_mismatch_kind expected actual =
    if bytes_eq expected (codes "http") && bytes_eq actual (codes "https")
    then scheme_http_to_https
    else (if bytes_eq expected (codes "https") && bytes_eq actual (codes "http")
        then scheme_https_to_http
        else not_allowlisted_other)

-- The targets that the loop has met; `path` and `query` are the first ones, `host` the last.
pub record Mismatches : Type 0 where
  pub path : Option Url
  pub query : Option Url
  pub host : Option Url
  pub host_count : ℕ

pub data Scan : Type 0 where
  broke : RedirectMismatchDetails → Scan
  scanned : Mismatches → Scan

abbrev or_first : Option Url → Bool → Url → Option Url
or_first none matches u = if matches then some u else none
or_first (some v) matches u = some v

abbrev observe : RedirectUrlMatch → RedirectUrlMatch → Url → Mismatches → Mismatches
observe t c u m =
    let same_host = bytes_eq t.host c.host in
    let same_scheme = bytes_eq t.scheme c.scheme in
    let same_query = bytes_eq t.query c.query in
    let same_path = bytes_eq t.comparable_path c.comparable_path in
    let other_host = not same_host && (same_scheme && (same_path && same_query)) in
    record {
      path =
          or_first m.path
            (same_host && (same_scheme && (same_query && not (bytes_eq t.exact_path c.exact_path))))
            u;
      query = or_first m.query (same_host && (same_scheme && (same_path && not same_query))) u;
      host = if other_host then some u else m.host;
      host_count = if other_host then m.host_count + 1 else m.host_count;
    }

abbrev is_scheme_mismatch : RedirectUrlMatch → RedirectUrlMatch → Bool
is_scheme_mismatch t c =
    bytes_eq t.host c.host
    && (bytes_eq t.comparable_path c.comparable_path
        && (bytes_eq t.query c.query && not (bytes_eq t.scheme c.scheme)))

-- The URL of a target that the loop does not pass by.
abbrev exact_base : Target → Option Url
exact_base t = if is_some t.template then none else t.base_url

abbrev scan_one : Net → RedirectUrlMatch → Option Url → Mismatches → Scan
scan_one net c none m = scanned m
scan_one net c (some u) m =
    let t = analyze_redirect_url net u in
    if is_scheme_mismatch t c
    then broke record {
      kind = scheme_mismatch_kind t.scheme c.scheme;
      expected_url = net.string u;
      expected_scheme = t.scheme;
      actual_scheme = c.scheme;
    }
    else scanned (observe t c u m)

abbrev then_scan : (Mismatches → Scan) → Scan → Scan
then_scan f (broke d) = broke d
then_scan f (scanned m) = f m

unfoldable pub scan : Net → RedirectUrlMatch → List Target → Mismatches → Scan
unfolding analyze_redirect_url scheme_mismatch_kind
scan net c [] m = scanned m
scan net c (t ∷ ts) m = then_scan (scan net c ts) (scan_one net c (exact_base t) m)

abbrev details_of : RedirectMismatchKind → Bytes → RedirectMismatchDetails
details_of kind expected = record {
  kind = kind;
  expected_url = expected;
  expected_scheme = [];
  actual_scheme = [];
}

abbrev pub other_details : RedirectMismatchDetails
other_details = details_of not_allowlisted_other []

abbrev from_host : Net → Mismatches → Option Url → RedirectMismatchDetails
from_host net m none = other_details
from_host net m (some u) =
    if m.host_count == 1 then details_of host_mismatch (net.string u) else other_details

abbrev from_query : Net → Mismatches → Option Url → RedirectMismatchDetails
from_query net m none = from_host net m m.host
from_query net m (some u) = details_of query_mismatch (net.string u)

abbrev from_path : Net → Mismatches → Option Url → RedirectMismatchDetails
from_path net m none = from_query net m m.query
from_path net m (some u) = details_of path_mismatch (net.string u)

abbrev conclude : Net → Scan → RedirectMismatchDetails
conclude net (broke d) = d
conclude net (scanned m) = from_path net m m.path

-- The explanation found without the cache.
unfoldable pub explain_from_targets : Net → Registry → Url → RedirectMismatchDetails
unfolding scan analyze_redirect_url
explain_from_targets net r u = conclude net (
    scan net (analyze_redirect_url net u) r.ordered
      (record { path = none; query = none; host = none; host_count = 0 }))

-- An explanation kept: `none` where the redirect is to a registered target.
abbrev pub Entry : Type 0
Entry = Option RedirectMismatchDetails

-- The part of the registry that is the cache. A limit of 0 stands for one that is 0 or less.
pub record ExplainCache : Type 0 where
  pub limit : ℕ
  pub entries : List (Bytes × Entry)
  pub order : List Bytes

abbrev pub default_redirect_explain_cache_limit : ℕ
default_redirect_explain_cache_limit = 256

unfoldable pub effective_limit : ExplainCache → ℕ
effective_limit c = if leb c.limit 0 then default_redirect_explain_cache_limit else c.limit

unfoldable pub clear_explain_cache : ExplainCache → ExplainCache
clear_explain_cache c = record c { entries = []; order = [] }

abbrev pub cached : Bytes → List (Bytes × Entry) → Option Entry
cached k [] = none
cached k ((j, e) ∷ es) = let rest = cached k es in if bytes_eq k j then some e else rest

abbrev pub without : Bytes → List (Bytes × Entry) → List (Bytes × Entry)
without k [] = []
without k ((j, e) ∷ es) = let rest = without k es in if bytes_eq k j then rest else (j, e) ∷ rest

-- The loop that evicts: the oldest keys go until the order is no longer than the limit.
unfoldable pub evict :
    (limit : ℕ) → (order : List Bytes) → List (Bytes × Entry) → List Bytes × List (Bytes × Entry)
evict limit [] entries = ([], entries)
evict limit (k ∷ ks) entries =
    let next = evict limit ks (without k entries) in
    if ltb limit (length (k ∷ ks)) then next else (k ∷ ks, entries)

unfoldable pub made_room : Bytes → ExplainCache → Bool → ExplainCache
unfolding evict effective_limit
made_room k c true = c
made_room k c false =
    let kept = evict (effective_limit c) (c.order ++ (k ∷ [])) c.entries in
    record c { order = kept.0; entries = kept.1 }

unfoldable pub store_redirect_explanation : Bytes → Entry → ExplainCache → ExplainCache
unfolding made_room
store_redirect_explanation k e c =
    let c' = made_room k c (is_some (cached k c.entries)) in
    if is_empty k then c else record c' { entries = (k, e) ∷ without k c'.entries }

abbrev pub max_redirect_explain_cache_key_bytes : ℕ
max_redirect_explain_cache_key_bytes = 2048

-- `digest` is the hexadecimal SHA-256.
unfoldable pub redirect_explain_cache_key : (digest : Bytes → Bytes) → Bytes → Bytes
redirect_explain_cache_key digest k =
    if leb (length k) max_redirect_explain_cache_key_bytes then k else codes "sha256:" ++ digest k

unfoldable pub answered : Bytes → Entry → ExplainCache → Entry × ExplainCache
unfolding store_redirect_explanation
answered k e c = (e, store_redirect_explanation k e c)

unfoldable pub from_cache_or :
    Bytes → Option Entry → RedirectMismatchDetails → ExplainCache → Entry × ExplainCache
unfolding answered
from_cache_or k (some e) fresh c = (e, c)
from_cache_or k none fresh c = answered k (some fresh) c

unfoldable pub explain_key :
    Net
    → (digest : Bytes → Bytes) → Registry
    → Url
    → Option Bytes
    → ExplainCache
    → Entry × ExplainCache
unfolding redirect_explain_cache_key explain_from_targets answered from_cache_or
explain_key net digest r u none c = (some other_details, c)
explain_key net digest r u (some k) c =
    let cache_key = redirect_explain_cache_key digest k in
    if holds_text k r.target_url_keys
    then answered cache_key none c
    else from_cache_or cache_key (cached cache_key c.entries) (explain_from_targets net r u) c

unfoldable pub explain_blocked_redirect :
    Net → (digest : Bytes → Bytes) → Registry → Url → ExplainCache → Entry × ExplainCache
unfolding explain_key normalized_url_key has_traversal
explain_blocked_redirect net digest r u c =
    if not (has_scheme_and_host u) || has_traversal u.path
    then (some other_details, c)
    else explain_key net digest r u (normalized_url_key net u) c
