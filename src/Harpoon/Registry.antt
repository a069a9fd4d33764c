-- ===== src/Harpoon/Registry.antt =====
-- The registry of targets: pkg/runtimeharpoon/registry.go. A map is the list of its entries; where
-- the source visits one, the order is an argument.
pub mod Keys
pub mod Admitted
pub mod Compatible
pub mod Sound
pub mod Offered
use tunnel_client.Base.{
  ℕ, ◌+◌, ◌≤◌, min, Bool, true, false, not, ◌&&◌, ◌||◌, Option, none, some, List, [], ◌∷◌, ◌++◌,
  ltb, leb, if◌then◌else◌, Bytes, codes, bytes_eq, is_empty, trim_space, length, is_some,
}
use tunnel_client.Harpoon.Urls.{
  Url, Net, has_prefix, is_https, has_scheme_and_host, normalize_url, normalized_url_key,
  has_traversal,
}
use tunnel_client.Harpoon.Metadata.{normalize_category_source, normalize_tags, holds_text}
use tunnel_client.Harpoon.Target.{
  TargetTemplate, has_rich_header_rules, is_loopback_http, Target, Codec,
  max_template_catalog_bytes, target_discovery_bytes, matches_label_pattern,
}

pub data RegisterError : Type 0 where
  label_required invalid_label combined_template invalid_template url_required : RegisterError
  scheme_and_host_required https_required relative_path invalid_segments : RegisterError
  nonpositive_limit invalid_url encoding_failed duplicate_label different_transport : RegisterError
  limit_exceeded over_budget : RegisterError

-- `state_ch` is the number of the current channel; those before it are closed. The cache of
-- explanations of redirects is beside it in Harpoon.Redirect.
pub record Registry : Type 0 where
  pub allow_plaintext : Bool
  pub limit : ℕ
  pub targets : List (Bytes × Target)
  pub ordered : List Target
  pub target_url_keys : List Bytes
  pub state_ch : ℕ
  pub discovery_bytes : ℕ
  pub has_rich_templates : Bool

pub data Registration : Type 0 where
  registered : Registry → Registration
  refused : RegisterError → Registration

pub data Resolution : Type 0 where
  resolved : Option TargetTemplate → Url → Resolution
  unresolved : RegisterError → Resolution

abbrev with_base : Option TargetTemplate → Option Url → Resolution
with_base template none = unresolved url_required
with_base template (some u) = resolved template u

abbrev compiled : Option TargetTemplate → Resolution
compiled none = unresolved invalid_template
compiled (some t) = resolved (some t) t.origin

abbrev pub resolve : Target → Option (Option TargetTemplate) → Resolution
resolve target none = with_base target.template target.base_url
resolve target (some answer) =
    if is_some target.base_url || not (is_empty target.unix_socket_path)
    then unresolved combined_template
    else compiled answer

-- The key of a target whose URL is exact: `none` where a loop over the targets passes it by.
abbrev pub key_unless : Net → Option TargetTemplate → Option Url → Option Bytes
key_unless net none (some u) = normalized_url_key net u
key_unless net _ _ = none

unfoldable pub exact_key : Net → Target → Option Bytes
exact_key net t = key_unless net t.template t.base_url

abbrev pub is_key : Bytes → Option Bytes → Bool
is_key k none = false
is_key k (some k') = bytes_eq k k'

abbrev pub has_other_socket : Net → Bytes → Bytes → List (Bytes × Target) → Bool
has_other_socket net k socket [] = false
has_other_socket net k socket ((l, t) ∷ ts) =
    (is_key k (exact_key net t) && not (bytes_eq t.unix_socket_path socket))
    || has_other_socket net k socket ts

abbrev pub other_socket_if : Net → Option Bytes → Bytes → List (Bytes × Target) → Bool
other_socket_if net none socket ts = false
other_socket_if net (some k) socket ts = has_other_socket net k socket ts

unfoldable pub has_different_transport_for_url : Net → Registry → Url → Bytes → Bool
has_different_transport_for_url net r candidate socket =
    other_socket_if net (normalized_url_key net candidate) socket r.targets

abbrev pub has_label : Bytes → List (Bytes × Target) → Bool
has_label l [] = false
has_label l ((k, t) ∷ ts) = bytes_eq l k || has_label l ts

-- `cleanTarget`; `u` is the normalized URL, `raw` the one it comes from.
unfoldable pub clean_target : Target → Option TargetTemplate → Url → Url → Target
unfolding normalize_category_source normalize_tags trim_space
clean_target target template raw u =
    let named = normalize_category_source target.category target.source in
    record {
      label = trim_space target.label;
      description = trim_space target.description;
      category = named.0;
      source = named.1;
      tags = normalize_tags target.tags;
      inclusion_reason = trim_space target.inclusion_reason;
      base_url = some u;
      unix_socket_path = trim_space target.unix_socket_path;
      template_input = none;
      template = template;
      original_url = some raw;
    }

abbrev pub with_key : Option TargetTemplate → Bytes → List Bytes → List Bytes
with_key none key keys = key ∷ keys
with_key (some t) key keys = keys

unfoldable pub admitted : Net → Target → Url → ℕ → Registry → Registry
admitted net t u bytes r = record r {
  targets = (t.label, t) ∷ r.targets;
  ordered = r.ordered ++ (t ∷ []);
  target_url_keys = with_key t.template (net.string u) r.target_url_keys;
  state_ch = r.state_ch + 1;
  discovery_bytes = min (max_template_catalog_bytes + 1) (r.discovery_bytes + bytes);
  has_rich_templates = r.has_rich_templates || has_rich_header_rules t.template;
}

-- The section that holds the lock.
unfoldable pub admit : Net → Target → Url → ℕ → Registry → Registration
unfolding admitted has_different_transport_for_url
admit net t u bytes r =
    if has_label t.label r.targets
    then refused duplicate_label
    else (if not (is_some t.template)
          && (holds_text (net.string u) r.target_url_keys
              && has_different_transport_for_url net r u t.unix_socket_path)
        then refused different_transport
        else (if leb r.limit (length r.targets)
            then refused limit_exceeded
            else (if (r.has_rich_templates || has_rich_header_rules t.template)
                  && ltb max_template_catalog_bytes (bytes + r.discovery_bytes)
                then refused over_budget
                else registered (admitted net t u bytes r))))

abbrev pub admit_sized : Net → Target → Url → Option ℕ → Registry → Registration
admit_sized net t u none r = refused encoding_failed
admit_sized net t u (some bytes) r = admit net t u bytes r

unfoldable pub cleaned : Net → Codec → Target → Url → Registry → Registration
unfolding target_discovery_bytes admit
cleaned net codec t u r = admit_sized net t u (target_discovery_bytes codec t) r

unfoldable pub with_normalized :
    Net → Codec → Target → Option TargetTemplate → Url → Option Url → Registry → Registration
unfolding clean_target cleaned
with_normalized net codec target template raw none r = refused invalid_url
with_normalized net codec target template raw (some u) r =
    cleaned net codec (clean_target target template raw u) u r

unfoldable pub with_resolution : Net → Codec → Target → Resolution → Registry → Registration
unfolding normalize_url is_https has_traversal with_normalized
with_resolution net codec target (unresolved e) r = refused e
with_resolution net codec target (resolved template u) r =
    if not (has_scheme_and_host u)
    then refused scheme_and_host_required
    else (if not r.allow_plaintext && (not (is_https u) && not (is_loopback_http template))
        then refused https_required
        else (if not (is_empty (net.escaped_path u))
              && not (has_prefix (codes "/") (net.escaped_path u))
            then refused relative_path
            else (if has_traversal u.path
                then refused invalid_segments
                else with_normalized net codec target template u (normalize_url u) r)))

unfoldable pub register_target : Net → Codec → Target → Registry → Registration
unfolding matches_label_pattern trim_space with_resolution
register_target net codec target r =
    if is_empty (trim_space target.label)
    then refused label_required
    else (if not (matches_label_pattern (trim_space target.label))
        then refused invalid_label
        else with_resolution net codec target (resolve target target.template_input) r)

abbrev pub empty_registry : (allow_plaintext : Bool) → (limit : ℕ) → Registry
empty_registry allow_plaintext limit = record {
  allow_plaintext = allow_plaintext;
  limit = limit;
  targets = [];
  ordered = [];
  target_url_keys = [];
  state_ch = 0;
  discovery_bytes = 0;
  has_rich_templates = false;
}

abbrev pub then_register : (Registry → Registration) → Registration → Registration
then_register f (registered r) = f r
then_register f (refused e) = refused e

-- The targets of the configuration: the first that is refused ends it.
unfoldable pub register_initial : Net → Codec → List Target → Registry → Registration
unfolding register_target
register_initial net codec [] r = registered r
register_initial net codec (t ∷ ts) r =
    then_register (register_initial net codec ts) (register_target net codec t r)

unfoldable pub new_registry_with_limit :
    Net → Codec → (allow_plaintext : Bool) → List Target → (limit : ℕ) → Registration
unfolding register_initial
new_registry_with_limit net codec allow_plaintext ts limit =
    if leb limit 0
    then refused nonpositive_limit
    else register_initial net codec ts (empty_registry allow_plaintext limit)

abbrev pub kept : Registry → Registration → Registry
kept r (registered r') = r'
kept r (refused e) = r

-- Targets registered one after another: one that is refused changes nothing.
unfoldable pub register_each : Net → Codec → List Target → Registry → Registry
unfolding register_target
register_each net codec [] r = r
register_each net codec (t ∷ ts) r =
    register_each net codec ts (kept r (register_target net codec t r))
