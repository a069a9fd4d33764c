-- ===== src/Harpoon/Target.antt =====
-- A target of the registry, its size in the discovery and its label: pkg/runtimeharpoon/registry.go and
-- discovery_budget.go. A template enters as what `CompileTargetTemplate` answers of it, and the JSON
-- encoder is a parameter.
use tunnel_client.Base.{
  ℕ, ◌+◌, min, Bool, true, false, not, ◌&&◌, ◌||◌, Option, none, some, List, [], ◌∷◌, ltb, leb,
  if◌then◌else◌, Bytes, length, ◌==◌,
}
use tunnel_client.Harpoon.Urls.{Url}

-- The fields of a compiled template that the registry reads; `legacy_rules` has each header rule's
-- `Legacy`.
pub record TargetTemplate : Type 0 where
  pub origin : Url
  pub loopback_http : Bool
  pub legacy_rules : List Bool

abbrev pub has_structured_rule : List Bool → Bool
has_structured_rule [] = false
has_structured_rule (legacy ∷ rules) = not legacy || has_structured_rule rules

abbrev pub has_rich_header_rules : Option TargetTemplate → Bool
has_rich_header_rules none = false
has_rich_header_rules (some t) = has_structured_rule t.legacy_rules

abbrev pub is_loopback_http : Option TargetTemplate → Bool
is_loopback_http none = false
is_loopback_http (some t) = t.loopback_http

-- `template_input` is the source's `Template`, `template` the private compiled one.
pub record Target : Type 0 where
  pub label : Bytes
  pub description : Bytes
  pub category : Bytes
  pub source : Bytes
  pub tags : List Bytes
  pub inclusion_reason : Bytes
  pub base_url : Option Url
  pub unix_socket_path : Bytes
  pub template_input : Option (Option TargetTemplate)
  pub template : Option TargetTemplate
  pub original_url : Option Url

-- `json.Marshal` of the public projection of a target, and of a text.
pub record Codec : Type 0 where
  pub marshal_info : Target → Option Bytes
  pub marshal_text : Bytes → Option Bytes

abbrev pub max_template_catalog_bytes : ℕ
max_template_catalog_bytes = 458752

abbrev escaped_size : ℕ → Option Bytes → Option ℕ
escaped_size n none = none
escaped_size n (some escaped) = some (min (max_template_catalog_bytes + 1) (n + length escaped))

abbrev payload_size : Codec → Option Bytes → Option ℕ
payload_size codec none = none
payload_size codec (some payload) =
    if ltb max_template_catalog_bytes (length payload)
    then some (max_template_catalog_bytes + 1)
    else escaped_size (length payload) (codec.marshal_text payload)

unfoldable pub target_discovery_bytes : Codec → Target → Option ℕ
target_discovery_bytes codec target = payload_size codec (codec.marshal_info target)

abbrev pub is_label_start_valid : ℕ → Bool
is_label_start_valid b = (leb 97 b && leb b 122) || (leb 48 b && leb b 57)

abbrev pub is_label_byte : ℕ → Bool
is_label_byte b = is_label_start_valid b || (b == 95 || b == 45)

abbrev pub are_label_bytes : Bytes → Bool
are_label_bytes [] = true
are_label_bytes (b ∷ s) = is_label_byte b && are_label_bytes s

-- `labelPattern`.
unfoldable pub matches_label_pattern : Bytes → Bool
matches_label_pattern [] = false
matches_label_pattern (b ∷ s) = is_label_start_valid b && (are_label_bytes s && leb (length s) 63)
