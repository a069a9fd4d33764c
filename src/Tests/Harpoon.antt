-- ===== src/Tests/Harpoon.antt =====
-- The registry of targets at concrete inputs: pkg/runtimeharpoon.
use tunnel_client.Base.{
  ◌≡◌, refl, ap, sym, ◌∙◌, ◌⊎◌, Bool, true, false, none, some, List, [], ◌∷◌, ◌++◌, Bytes, codes,
  to_lower, equal_fold, bytes_eq,
}
use mathlib.Core.List.{Memᴰ}
use tunnel_client.Harpoon.Urls.{
  Url, Net, lowered, normalized_url_key, has_traversal, split_host_port,
}
use tunnel_client.Harpoon.Target.{Target, Codec}
use tunnel_client.Harpoon.Registry.{
  Registry, empty_registry, register_each, register_target, clean_target, exact_key,
}
use tunnel_client.Harpoon.Registry.Sound.{IsSound, register_each-IsSound}
use tunnel_client.Harpoon.Lookup.{allows_url, target_for_url}
use tunnel_client.Harpoon.Lookup.Allowed.{is_candidate, is_offered_key, allows_url-is_offered}
use tunnel_client.Harpoon.Lookup.OneSocket.{target_for_url-one_socket}
use tunnel_client.Harpoon.Redirect.{
  explain_blocked_redirect, redirect_explain_cache_key, analyze_redirect_url,
}
use tunnel_client.Harpoon.Redirect.Cache.{IsBounded}
use tunnel_client.Harpoon.Redirect.Calls.{register, explain, Call, State, calls, new_state}
use tunnel_client.Harpoon.Redirect.Explained.{
  explanation, IsApart, explain_blocked_redirect-explanation,
}
use tunnel_client.Harpoon.Hosts.{UrlRecord, HostClassifier, source_key, role_key}
use tunnel_client.Harpoon.Labels.{resolve_auto_label_collision}
use tunnel_client.Harpoon.HostRegistration.{register_host_bundle, auto_target, build_auto_label}
use tunnel_client.Harpoon.HostRegistration.Trusted.{is_trusted_key, register_host_bundle-is_trusted}
use tunnel_client.Harpoon.HostRegistration.Labelled.{is_about_label, auto_label-is_about_label}

abbrev some_net : Net
some_net = record {
  string = λ u. u.scheme ++ (codes "://" ++ (u.host ++ u.path));
  escaped_path = λ u. u.path;
  parses = λ s. true;
  parse_addr = λ s. none;
  has_registrable_domain = λ s. true;
}

abbrev some_codec : Codec
some_codec = record { marshal_info = λ t. some t.label; marshal_text = λ s. some s }

abbrev https_url : (host path : Bytes) → Url
https_url host path = record {
  scheme = codes "https";
  opaque = [];
  user = none;
  host = host;
  path = path;
  raw_path = [];
  raw_query = [];
  force_query = false;
  fragment = [];
  raw_fragment = [];
}

abbrev target_at : (label : Bytes) → Url → Target
target_at label u = record {
  label = label;
  description = [];
  category = [];
  source = [];
  tags = [];
  inclusion_reason = [];
  base_url = some u;
  unix_socket_path = [];
  template_input = none;
  template = none;
  original_url = none;
}

abbrev two_targets : List Target
two_targets =
    target_at (codes "api") (https_url (codes "a.b") (codes "/m"))
    ∷ target_at (codes "two") (https_url (codes "A.b") (codes "/m"))
    ∷ []

abbrev two_registry : Registry
two_registry = register_each some_net some_codec two_targets (empty_registry false 5)

register_each-IsSound_example : IsSound some_net some_codec two_registry
register_each-IsSound_example = register_each-IsSound some_net some_codec false 5 two_targets

abbrev mixed_url : Url
mixed_url = https_url (codes "A.B") (codes "/m")

two_allowed : allows_url some_net two_registry.targets two_registry mixed_url ≡ true
unfolding allows_url register_each register_target equal_fold exact_key
two_allowed = refl

allows_url-is_offered_example :
    (is_candidate false mixed_url ≡ true)
    × (is_offered_key some_net (normalized_url_key some_net mixed_url) two_targets ≡ true)
allows_url-is_offered_example =
    allows_url-is_offered some_net some_codec false 5 two_targets two_registry.targets mixed_url
      (λ e m. m) two_allowed

abbrev cleaned_at : (label : Bytes) → Url → Target
cleaned_at label u = clean_target (target_at label u) none u (lowered u)

two_found :
    target_for_url some_net two_registry.targets two_registry mixed_url
    ≡ some (cleaned_at (codes "two") (https_url (codes "A.b") (codes "/m")))
unfolding target_for_url register_each register_target equal_fold exact_key
two_found = refl

api_registered :
    Memᴰ
      (codes "api", cleaned_at (codes "api") (https_url (codes "a.b") (codes "/m")))
      two_registry.targets
unfolding register_each register_target equal_fold normalized_url_key exact_key
api_registered = Memᴰ.tail (Memᴰ.head refl)

api_key :
    exact_key some_net (cleaned_at (codes "api") (https_url (codes "a.b") (codes "/m")))
    ≡ normalized_url_key some_net mixed_url
unfolding clean_target exact_key normalized_url_key
api_key = refl

target_for_url-one_socket_example :
    (cleaned_at (codes "two") (https_url (codes "A.b") (codes "/m"))).unix_socket_path
    ≡ (cleaned_at (codes "api") (https_url (codes "a.b") (codes "/m"))).unix_socket_path
target_for_url-one_socket_example =
    target_for_url-one_socket some_net some_codec false 5 two_targets two_registry.targets mixed_url
      (cleaned_at (codes "two") (https_url (codes "A.b") (codes "/m")))
      (codes "api", cleaned_at (codes "api") (https_url (codes "a.b") (codes "/m"))) (λ e m. m)
      two_found api_registered api_key

some_same : (i j : Bytes) → some i ≡ some j → i ≡ j
some_same i j h = cc

true_not_false : true ≡ false → ⊥
true_not_false h = cc

-- A digest under which all long texts collide.
abbrev one_digest : Bytes → Bytes
one_digest k = codes "d"

-- The redirect to /m is explained, and kept; then a target at /m is registered.
abbrev three_calls : List Call
three_calls =
    explain (https_url (codes "a.b") (codes "/m"))
    ∷ register (target_at (codes "api") (https_url (codes "a.b") (codes "/m")))
    ∷ explain (https_url (codes "a.b") (codes "/n"))
    ∷ []

m_IsApart : IsApart some_net one_digest mixed_url (https_url (codes "a.b") (codes "/m"))
unfolding normalized_url_key to_lower analyze_redirect_url
m_IsApart i j m n same = (some_same i j (sym m ∙ n), refl)

n_IsApart : IsApart some_net one_digest mixed_url (https_url (codes "a.b") (codes "/n"))
unfolding normalized_url_key to_lower redirect_explain_cache_key bytes_eq
n_IsApart i j m n same =
    let keys =
      ap (redirect_explain_cache_key one_digest) (some_same (codes "https://a.b/n") i m)
      ∙ same
      ∙ sym (ap (redirect_explain_cache_key one_digest) (some_same (codes "https://a.b/m") j n)) in
    absurd (true_not_false (ap (bytes_eq (codes "https://a.b/n")) keys))

abbrev after_three : State
after_three = calls some_net some_codec one_digest three_calls (new_state false 5)

explain_blocked_redirect-explanation_example :
    ((explain_blocked_redirect some_net one_digest after_three.registry mixed_url
        after_three.cache).0
      ≡ explanation some_net after_three.registry mixed_url)
    × IsBounded after_three.cache
explain_blocked_redirect-explanation_example =
    explain_blocked_redirect-explanation some_net some_codec one_digest false 5 three_calls
      mixed_url (m_IsApart, (n_IsApart, tt))

-- The target that was registered since is seen.
registered_since : explanation some_net after_three.registry mixed_url ≡ none
unfolding calls register_target equal_fold explain_blocked_redirect exact_key normalized_url_key
    has_traversal
registered_since = refl

abbrev oauth_record : (role : Bytes) → (disallow : Bool) → Url → UrlRecord
oauth_record role disallow u = record {
  url = some u;
  description = [];
  tags = (source_key, codes "oauth") ∷ (role_key, role) ∷ [];
  unix_socket_path = [];
  disallow_private_host_registration = disallow;
}

abbrev some_classifier : HostClassifier
some_classifier = record {
  include_loopback = true;
  include_private = true;
  suffixes = [];
  regexes = [];
}

abbrev some_bundle : List UrlRecord
some_bundle =
    oauth_record (codes "prmd-resource") false (https_url (codes "a.b") (codes "/r"))
    ∷ oauth_record (codes "issuer") true (https_url (codes "a.b") (codes "/i"))
    ∷ oauth_record (codes "issuer") true (https_url (codes "c.b") (codes "/i"))
    ∷ []

abbrev issuer_entry : Bytes × Target
issuer_entry = (
  codes "oauth-issuer-1",
  clean_target
      (auto_target (oauth_record (codes "issuer") true (https_url (codes "a.b") (codes "/i")))
        (codes "oauth-issuer-1") (codes "oauth-protected-resource-host")
        (https_url (codes "a.b") (codes "/i")))
      none (https_url (codes "a.b") (codes "/i")) (https_url (codes "a.b") (codes "/i")),
)

issuer_registered :
    Memᴰ issuer_entry
      (register_host_bundle some_net some_codec some_bundle some_classifier
        (empty_registry false 5)
        []).targets
unfolding register_host_bundle split_host_port
issuer_registered = Memᴰ.head refl

issuer_key : exact_key some_net issuer_entry.1 ≡ some (codes "https://a.b/i")
unfolding exact_key clean_target auto_target normalized_url_key to_lower
issuer_key = refl

register_host_bundle-is_trusted_example :
    Memᴰ issuer_entry (empty_registry false 5).targets
    ⊎ (is_trusted_key some_net some_classifier [] some_bundle (codes "https://a.b/i") some_bundle
        ≡ true)
register_host_bundle-is_trusted_example =
    register_host_bundle-is_trusted some_net some_codec some_bundle some_classifier
      (empty_registry false 5) [] (codes "https://a.b/i") issuer_entry issuer_key issuer_registered

auto_label-is_about_label_example :
    ((resolve_auto_label_collision
        (build_auto_label
          (oauth_record (codes "issuer") true (https_url (codes "a.b") (codes "/i")))
          1)
        two_registry).0
      ≡ [])
    ⊎ (is_about_label (
          register_target some_net some_codec
            (auto_target
              (oauth_record (codes "issuer") true (https_url (codes "a.b") (codes "/i")))
              (resolve_auto_label_collision
                (build_auto_label
                  (oauth_record (codes "issuer") true (https_url (codes "a.b") (codes "/i")))
                  1)
                two_registry).0
              (codes "loopback")
              (https_url (codes "a.b") (codes "/i")))
            two_registry)
        ≡ false)
auto_label-is_about_label_example =
    auto_label-is_about_label some_net some_codec
      (oauth_record (codes "issuer") true (https_url (codes "a.b") (codes "/i"))) 1
      (codes "loopback") (https_url (codes "a.b") (codes "/i")) two_registry
