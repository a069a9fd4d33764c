-- ===== src/Harpoon/HostRegistration.antt =====
-- Discovered URLs register themselves: pkg/runtimeharpoon/host_registration.go.
pub mod Trusted
pub mod Labelled
use tunnel_client.Base.{
  ℕ, zero, suc, ◌+◌, Bool, true, false, not, ◌&&◌, ◌||◌, Option, none, some, List, [], ◌∷◌, ◌++◌,
  ◌==◌, if◌then◌else◌, Bytes, codes, bytes_eq, is_empty,
}
use tunnel_client.Harpoon.Urls.{Url, Net, hostname}
use tunnel_client.Harpoon.Metadata.{normalize_token, normalize_tags}
use tunnel_client.Harpoon.Target.{Target, Codec}
use tunnel_client.Harpoon.Registry.{Registry, Registration, register_target, kept}
use tunnel_client.Harpoon.Labels.{decimal, sanitize_label, resolve_auto_label_collision}
use tunnel_client.Harpoon.Hosts.{
  role_key, index_key, source_key, group_key, UrlRecord, tag_value, HostClassifier, is_private_host,
}
use tunnel_client.Harpoon.HostPolicy.{
  HostPolicy, new_host_policy, policy_allows, ForwardingOrigin, forwarding_origin_for_url,
  forwarding_allows,
}

-- An origin of the configuration must be no more than an origin.
abbrev is_bare : Url → Bool
is_bare u =
    (is_empty u.path || bytes_eq u.path (codes "/"))
    && (is_empty u.raw_path && (is_empty u.raw_query && not u.force_query))

abbrev consed_policy :
    Bool → Option ForwardingOrigin → Option (List ForwardingOrigin) → Option (List ForwardingOrigin)
consed_policy true (some o) (some os) = some (o ∷ os)
consed_policy _ _ _ = none

-- `none` for an error.
unfoldable pub new_forwarding_policy : Net → List Url → Option (List ForwardingOrigin)
unfolding forwarding_origin_for_url
new_forwarding_policy net [] = some []
new_forwarding_policy net (u ∷ us) =
    consed_policy (is_bare u) (forwarding_origin_for_url net u) (new_forwarding_policy net us)

abbrev pub not_disallowed : Bool × Bytes → Bool → Bool × Bytes
not_disallowed private allowed =
    if private.0
    then private
    else (if allowed then (true, codes "oauth-protected-resource-host") else (false, private.1))

abbrev pub disallowed : Bool × Bytes → Bool → Bool × Bytes
disallowed private allowed =
    if allowed
    then (true, codes "oauth-protected-resource-host")
    else (if private.0
        then (false, codes "private-host-registration-disabled")
        else (false, private.1))

unfoldable pub judged :
    Net
    → UrlRecord
    → HostClassifier
    → HostPolicy
    → List ForwardingOrigin
    → Option Url
    → Bool × Bytes
unfolding forwarding_allows policy_allows is_private_host
judged net rec classifier policy forwarding none = (false, [])
judged net rec classifier policy forwarding (some u) =
    if forwarding_allows net forwarding rec
    then (true, codes "oauth-forwarding-origin")
    else (if rec.disallow_private_host_registration
        then disallowed (is_private_host net classifier (hostname u)) (policy_allows net policy rec)
        else not_disallowed (is_private_host net classifier (hostname u))
            (policy_allows net policy rec))

-- Whether the record is registered, and the reason either way.
unfoldable pub should_register_url_record :
    Net → UrlRecord → HostClassifier → HostPolicy → List ForwardingOrigin → Bool × Bytes
unfolding judged
should_register_url_record net rec classifier policy forwarding =
    judged net rec classifier policy forwarding rec.url

abbrev joined : List Bytes → Bytes
joined [] = []
joined (p ∷ []) = p
joined (p ∷ q ∷ ps) = p ++ (45 ∷ joined (q ∷ ps))

abbrev unless_empty : Bytes → List Bytes → List Bytes
unless_empty p ps = if is_empty p then ps else p ∷ ps

abbrev or_index : Bytes → ℕ → Bytes
unfolding decimal
or_index index fallback = if is_empty index then decimal fallback else index

unfoldable pub auto_label_text : UrlRecord → (fallback_index : ℕ) → Bytes
unfolding tag_value or_index
auto_label_text rec fallback = joined (
    codes "oauth"
    ∷ unless_empty (tag_value rec.tags role_key)
        (unless_empty (or_index (tag_value rec.tags index_key) fallback) []))

unfoldable pub build_auto_label : UrlRecord → (fallback_index : ℕ) → Bytes
unfolding auto_label_text sanitize_label
build_auto_label rec fallback = sanitize_label (auto_label_text rec fallback)

-- `oauthRoleTagMapping`.
role_tag_mapping : List (Bytes × List Bytes)
role_tag_mapping =
    (codes "prmd-resource", codes "protected-resource-metadata" ∷ codes "resource" ∷ [])
    ∷ (
      codes "prmd-auth-server",
      codes "protected-resource-metadata" ∷ codes "authorization-server" ∷ [],
    )
    ∷ (codes "prmd-source", codes "protected-resource-metadata" ∷ codes "source-url" ∷ [])
    ∷ (codes "auth-server-metadata", codes "auth-server-metadata" ∷ [])
    ∷ (codes "issuer", codes "auth-server-metadata" ∷ codes "issuer" ∷ [])
    ∷ (codes "token-endpoint", codes "auth-server-metadata" ∷ codes "token-endpoint" ∷ [])
    ∷ (codes "jwks-uri", codes "auth-server-metadata" ∷ codes "jwks-uri" ∷ [])
    ∷ (
      codes "introspection-endpoint",
      codes "auth-server-metadata" ∷ codes "introspection-endpoint" ∷ [],
    )
    ∷ (
      codes "registration-endpoint",
      codes "auth-server-metadata" ∷ codes "registration-endpoint" ∷ [],
    )
    ∷ (codes "revocation-endpoint", codes "auth-server-metadata" ∷ codes "revocation-endpoint" ∷ [])
    ∷ []

mapped_tags : Bytes → List (Bytes × List Bytes) → List Bytes
unfolding normalize_tags
mapped_tags role [] = role ∷ []
mapped_tags role ((r, tags) ∷ rest) =
    let later = mapped_tags role rest in if bytes_eq role r then normalize_tags tags else later

unfoldable pub role_tags : Bytes → List Bytes
unfolding role_tag_mapping mapped_tags normalize_token
role_tags role =
    if is_empty (normalize_token role)
    then []
    else mapped_tags (normalize_token role) role_tag_mapping

abbrev group_tags : Bytes → List Bytes
group_tags group = if is_empty group then [] else (codes "group=" ++ group) ∷ []

unfoldable pub auto_target : UrlRecord → (label reason : Bytes) → Url → Target
unfolding role_tags normalize_token tag_value
auto_target rec label reason u = record {
  label = label;
  description = rec.description;
  category = tag_value rec.tags source_key;
  source = tag_value rec.tags source_key;
  tags =
      role_tags (tag_value rec.tags role_key)
      ++ group_tags (normalize_token (tag_value rec.tags group_key));
  inclusion_reason = reason;
  base_url = some u;
  unix_socket_path = rec.unix_socket_path;
  template_input = none;
  template = none;
  original_url = none;
}

-- A record that is admitted, with the label found for it.
unfoldable pub register_labelled :
    Net → Codec → UrlRecord → (reason : Bytes) → Url → (label : Bytes) → Registry → Registry
unfolding auto_target register_target
register_labelled net codec rec reason u label r =
    if is_empty label
    then r
    else kept r (register_target net codec (auto_target rec label reason u) r)

unfoldable pub register_admitted :
    Net → Codec → UrlRecord → (index : ℕ) → Bool × Bytes → Option Url → Registry → Registry
unfolding build_auto_label resolve_auto_label_collision register_labelled
register_admitted net codec rec index verdict none r = r
register_admitted net codec rec index verdict (some u) r =
    if verdict.0
    then register_labelled net codec rec verdict.1 u
        (resolve_auto_label_collision (build_auto_label rec index) r).0 r
    else r

unfoldable pub register_record :
    Net
    → Codec
    → HostClassifier
    → HostPolicy
    → List ForwardingOrigin
    → (index : ℕ) → UrlRecord
    → Registry
    → Registry
unfolding should_register_url_record register_admitted
register_record net codec classifier policy forwarding index rec r =
    register_admitted net codec rec index
      (should_register_url_record net rec classifier policy forwarding) rec.url r

unfoldable pub register_records :
    Net
    → Codec
    → HostClassifier
    → HostPolicy
    → List ForwardingOrigin
    → (index : ℕ) → List UrlRecord
    → Registry
    → Registry
unfolding register_record
register_records net codec classifier policy forwarding index [] r = r
register_records net codec classifier policy forwarding index (rec ∷ recs) r =
    register_records net codec classifier policy forwarding (index + 1) recs
      (register_record net codec classifier policy forwarding index rec r)

unfoldable pub register_host_bundle :
    Net → Codec → List UrlRecord → HostClassifier → Registry → List ForwardingOrigin → Registry
unfolding register_records new_host_policy
register_host_bundle net codec bundle classifier r forwarding =
    register_records net codec classifier (new_host_policy net bundle) forwarding 0 bundle r
