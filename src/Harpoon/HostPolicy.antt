-- ===== src/Harpoon/HostPolicy.antt =====
-- The policies of hosts and origins: pkg/runtimeharpoon/host_registration.go. A bundle is its list of records; a
-- set is the list of its members.
use tunnel_client.Base.{
  ℕ, Bool, true, false, not, ◌&&◌, ◌||◌, Option, none, some, List, [], ◌∷◌, ◌++◌, ◌==◌, ltb,
  if◌then◌else◌, Bytes, codes, bytes_eq, is_empty, to_lower, equal_fold, is_some,
}
use tunnel_client.Harpoon.Urls.{Url, Addr, Net, has_prefix, has_suffix, hostname, port}
use tunnel_client.Harpoon.Metadata.{normalize_token}
use tunnel_client.Harpoon.Labels.{decimal}
use tunnel_client.Harpoon.Hosts.{
  role_key, UrlRecord, tag_value, is_oauth_url_record, normalized_hostname, Origin, is_same_origin,
  new_protected_resource_origin, atoi,
}

pub record ProtectedHost : Type 0 where
  pub host : Bytes
  pub allow_subdomain : Bool

pub record HostPolicy : Type 0 where
  pub hosts : List ProtectedHost
  pub exact_origins : List Origin

-- The record seeds the policy: it is an OAuth one, it may register private hosts, and its role is the
-- resource's or the source's.
unfoldable pub seeds_policy : UrlRecord → Bool
unfolding is_oauth_url_record normalize_token tag_value
seeds_policy rec =
    let role = normalize_token (tag_value rec.tags role_key) in
    is_oauth_url_record rec
    && (not rec.disallow_private_host_registration
        && (bytes_eq role (codes "prmd-resource") || bytes_eq role (codes "prmd-source")))

unfoldable pub new_protected_resource_host : Net → Bytes → Option ProtectedHost
new_protected_resource_host net host =
    if is_empty host
    then none
    else (if is_some (net.parse_addr host)
        then some record { host = host; allow_subdomain = false }
        else (if net.has_registrable_domain host
            then some record { host = host; allow_subdomain = true }
            else none))

abbrev same_bool : Bool → Bool → Bool
same_bool true b = b
same_bool false b = not b

abbrev holds_host : ProtectedHost → List ProtectedHost → Bool
holds_host h [] = false
holds_host h (g ∷ gs) =
    (bytes_eq h.host g.host && same_bool h.allow_subdomain g.allow_subdomain) || holds_host h gs

abbrev pub add_origin : Option Origin → List Origin → List Origin
add_origin none os = os
add_origin (some o) os = os ++ (o ∷ [])

abbrev add_host : Option ProtectedHost → List ProtectedHost → List ProtectedHost
add_host none hs = hs
add_host (some h) hs = if holds_host h hs then hs else hs ++ (h ∷ [])

abbrev pub origin_of : Net → Option Url → Option Origin
unfolding new_protected_resource_origin
origin_of net none = none
origin_of net (some u) = new_protected_resource_origin net u

abbrev host_of : Net → Option Url → Option ProtectedHost
unfolding new_protected_resource_host normalized_hostname
host_of net none = none
host_of net (some u) = new_protected_resource_host net (normalized_hostname u)

unfoldable pub seeded : Net → UrlRecord → HostPolicy → HostPolicy
unfolding origin_of host_of
seeded net rec p = record {
  hosts = add_host (host_of net rec.url) p.hosts;
  exact_origins = add_origin (origin_of net rec.url) p.exact_origins;
}

unfoldable pub policy_from : Net → HostPolicy → List UrlRecord → HostPolicy
unfolding seeded seeds_policy
policy_from net p [] = p
policy_from net p (rec ∷ recs) =
    policy_from net (if seeds_policy rec then seeded net rec p else p) recs

abbrev pub empty_policy : HostPolicy
empty_policy = record { hosts = []; exact_origins = [] }

unfoldable pub new_host_policy : Net → List UrlRecord → HostPolicy
unfolding policy_from
new_host_policy net bundle = policy_from net empty_policy bundle

abbrev pub holds_origin : Origin → List Origin → Bool
holds_origin o [] = false
holds_origin o (p ∷ ps) = is_same_origin o p || holds_origin o ps

abbrev pub is_exact_origin : Option Origin → List Origin → Bool
is_exact_origin none os = false
is_exact_origin (some o) os = holds_origin o os

abbrev is_protected_host : Bytes → List ProtectedHost → Bool
is_protected_host host [] = false
is_protected_host host (p ∷ ps) =
    (bytes_eq host p.host || (p.allow_subdomain && has_suffix (46 ∷ p.host) host))
    || is_protected_host host ps

abbrev is_host_allowed : HostPolicy → Option Url → Bool
unfolding has_suffix normalized_hostname
is_host_allowed p none = false
is_host_allowed p (some u) =
    not (is_empty (normalized_hostname u)) && is_protected_host (normalized_hostname u) p.hosts

unfoldable pub policy_allows : Net → HostPolicy → UrlRecord → Bool
unfolding is_oauth_url_record origin_of is_host_allowed
policy_allows net p rec =
    is_oauth_url_record rec
    && (if rec.disallow_private_host_registration
        then is_exact_origin (origin_of net rec.url) p.exact_origins
        else is_host_allowed p rec.url)

-- An origin that forwards is https: its scheme is left out.
pub record ForwardingOrigin : Type 0 where
  pub host : Bytes
  pub port : Bytes

abbrev forwarding_port : Option ℕ → Option Bytes
forwarding_port none = none
forwarding_port (some n) = if ltb n 1 || ltb 65535 n then none else some (decimal n)

abbrev forwarding_host : Bytes → Option Addr → Bytes
forwarding_host host none = to_lower host
forwarding_host host (some a) = a.text

abbrev is_plain_6 : Url → Option Addr → Bool
is_plain_6 u none = false
is_plain_6 u (some a) = a.is_6 && (is_empty a.zone && has_prefix (codes "[") u.host)

abbrev contains_colon : Bytes → Bool
contains_colon [] = false
contains_colon (c ∷ s) = c == 58 || contains_colon s

abbrev with_port : Bytes → Option Bytes → Option ForwardingOrigin
with_port host none = none
with_port host (some p) = some record { host = host; port = p }

unfoldable pub forwarding_origin_for_url : Net → Url → Option ForwardingOrigin
unfolding equal_fold has_suffix atoi decimal to_lower
forwarding_origin_for_url net u =
    let host = hostname u in
    if not (equal_fold u.scheme (codes "https"))
      || (is_empty host
          || (not (is_empty u.opaque)
              || (is_some u.user || (not (is_empty u.fragment) || not (is_empty u.raw_fragment)))))
    then none
    else (if not (net.parses (net.string u)) || has_suffix (codes ":") u.host
        then none
        else (if (contains_colon host || has_prefix (codes "[") u.host)
              && not (is_plain_6 u (net.parse_addr host))
            then none
            else with_port (forwarding_host host (net.parse_addr host)) (
                if is_empty (port u) then some (codes "443") else forwarding_port (atoi (port u)))))

abbrev holds_forwarding : ForwardingOrigin → List ForwardingOrigin → Bool
holds_forwarding o [] = false
holds_forwarding o (p ∷ ps) =
    (bytes_eq o.host p.host && bytes_eq o.port p.port) || holds_forwarding o ps

abbrev holds_forwarding_url : Net → Option ForwardingOrigin → List ForwardingOrigin → Bool
holds_forwarding_url net none os = false
holds_forwarding_url net (some o) os = holds_forwarding o os

abbrev forwards_to : Net → List ForwardingOrigin → Option Url → Bool
unfolding forwarding_origin_for_url
forwards_to net os none = false
forwards_to net os (some u) = holds_forwarding_url net (forwarding_origin_for_url net u) os

unfoldable pub forwarding_allows : Net → List ForwardingOrigin → UrlRecord → Bool
unfolding is_oauth_url_record forwards_to
forwarding_allows net [] rec = false
forwarding_allows net (o ∷ os) rec = is_oauth_url_record rec && forwards_to net (o ∷ os) rec.url
