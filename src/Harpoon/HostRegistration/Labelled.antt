-- ===== src/Harpoon/HostRegistration/Labelled.antt =====
-- The label of a record that registers itself is never why it is refused:
-- pkg/runtimeharpoon/host_registration.go.
use tunnel_client.Base.{
  ◌≡◌, refl, ap, ◌∙◌, ◌⊎◌, ℕ, Bool, true, false, not, ◌&&◌, ◌||◌, Option, none, some, [], ◌∷◌,
  if◌then◌else◌, Bytes, is_empty, trim_space, is_some, ltb, leb, length, codes, ◌+◌, inl, inr,
}
use tunnel_client.Harpoon.Urls.{
  Url, Net, normalize_url, has_scheme_and_host, is_https, has_prefix, has_traversal,
}
use tunnel_client.Harpoon.Target.{
  TargetTemplate, has_rich_header_rules, max_template_catalog_bytes, Target, Codec,
  matches_label_pattern,
}
use tunnel_client.Harpoon.Metadata.{holds_text}
use tunnel_client.Harpoon.Registry.{
  RegisterError, different_transport, limit_exceeded, over_budget, scheme_and_host_required,
  https_required, relative_path, invalid_segments, has_different_transport_for_url, label_required,
  invalid_label, duplicate_label, Registry, Registration, registered, refused, resolved, has_label,
  clean_target, admit, admit_sized, cleaned, with_normalized, with_resolution, register_target,
}
use tunnel_client.Harpoon.Labels.{resolve_auto_label_collision}
use tunnel_client.Harpoon.Labels.Valid.{
  IsLabel, IsLabel-matches, trim_space_label, sanitize_label-IsLabel,
}
use tunnel_client.Harpoon.Labels.Free.{IsFree, resolve_auto_label_collision-IsFound}
use tunnel_client.Harpoon.Hosts.{UrlRecord}
use tunnel_client.Harpoon.HostRegistration.{auto_label_text, build_auto_label, auto_target}

abbrev pub is_label_error : RegisterError → Bool
is_label_error label_required = true
is_label_error invalid_label = true
is_label_error duplicate_label = true
is_label_error _ = false

-- Not refused for a label.
abbrev pub is_about_label : Registration → Bool
is_about_label (registered r) = false
is_about_label (refused e) = is_label_error e

data IsClear : Registration → Type 0 where
  is_registered : {r : Registry} → IsClear (registered r)
  is_refused : {e : RegisterError} → is_label_error e ≡ false → IsClear (refused e)

IsClear-lem : (x : Registration) → IsClear x → is_about_label x ≡ false
IsClear-lem (registered r) c = refl
IsClear-lem (refused e) (is_refused h) = h

chain :
    (b : Bool) (e : RegisterError) (x : Registration)
    → is_label_error e ≡ false
    → IsClear x
    → IsClear (if b then refused e else x)
chain true e x h g = is_refused h
chain false e x h g = g

passed :
    (b : Bool) (e : RegisterError) (x : Registration)
    → b ≡ false
    → IsClear x
    → IsClear (if b then refused e else x)
passed true e x h g = cc
passed false e x h g = g

admit-IsClear :
    (net : Net) (t : Target) (u : Url) (bytes : ℕ) (r : Registry)
    → has_label t.label r.targets ≡ false
    → IsClear (admit net t u bytes r)
unfolding admit
admit-IsClear net t u bytes r h = passed (has_label t.label r.targets) duplicate_label _ h (
    chain
      (not (is_some t.template)
        && (holds_text (net.string u) r.target_url_keys
            && has_different_transport_for_url net r u t.unix_socket_path))
      different_transport _ refl
      (chain (leb r.limit (length r.targets)) limit_exceeded _ refl (
        chain
          ((r.has_rich_templates || has_rich_header_rules t.template)
            && ltb max_template_catalog_bytes (bytes + r.discovery_bytes))
          over_budget _ refl is_registered)))

sized-IsClear :
    (net : Net) (t : Target) (u : Url) (o : Option ℕ) (r : Registry)
    → has_label t.label r.targets ≡ false
    → IsClear (admit_sized net t u o r)
sized-IsClear net t u none r h = is_refused refl
sized-IsClear net t u (some bytes) r h = admit-IsClear net t u bytes r h

normalized-IsClear :
    (net : Net) (codec : Codec) (target : Target) (template : Option TargetTemplate) (raw : Url)
    (o : Option Url) (r : Registry)
    → has_label (trim_space target.label) r.targets ≡ false
    → IsClear (with_normalized net codec target template raw o r)
unfolding with_normalized cleaned clean_target
normalized-IsClear net codec target template raw none r h = is_refused refl
normalized-IsClear net codec target template raw (some u) r h =
    sized-IsClear net (clean_target target template raw u) u _ r h

resolve-IsClear :
    (net : Net) (codec : Codec) (target : Target) (u : Url) (r : Registry)
    → has_label (trim_space target.label) r.targets ≡ false
    → IsClear (with_resolution net codec target (resolved none u) r)
unfolding with_resolution
resolve-IsClear net codec target u r h =
    chain (not (has_scheme_and_host u)) scheme_and_host_required _ refl (
      chain (not r.allow_plaintext && (not (is_https u) && true)) https_required _ refl (
        chain
          (not (is_empty (net.escaped_path u)) && not (has_prefix (codes "/") (net.escaped_path u)))
          relative_path _ refl
          (chain (has_traversal u.path) invalid_segments _ refl
            (normalized-IsClear net codec target none u (normalize_url u) r h))))

IsLabel-not_empty : (l : Bytes) → IsLabel l → is_empty l ≡ false
IsLabel-not_empty [] h = cc
IsLabel-not_empty (c ∷ s) h = refl

free-IsClear :
    (net : Net) (codec : Codec) (rec : UrlRecord) (l reason : Bytes) (u : Url) (r : Registry)
    → IsFree r l
    → IsClear (register_target net codec (auto_target rec l reason u) r)
unfolding register_target auto_target
free-IsClear net codec rec l reason u r h =
    let same = trim_space_label l h.0.1 in
    passed (is_empty (trim_space l)) _ _ (ap is_empty same ∙ IsLabel-not_empty l h.0) (
      passed (not (matches_label_pattern (trim_space l))) _ _
        (ap (λ s. not (matches_label_pattern s)) same ∙ ap not (IsLabel-matches l h.0))
        (resolve-IsClear net codec (auto_target rec l reason u) u r
          (ap (λ s. has_label s r.targets) same ∙ h.1)))

build_auto_label-IsLabel :
    (rec : UrlRecord) (index : ℕ)
    → (build_auto_label rec index ≡ []) ⊎ IsLabel (build_auto_label rec index)
unfolding build_auto_label
build_auto_label-IsLabel rec index = sanitize_label-IsLabel (auto_label_text rec index)

-- The label found for a record is empty, and then the record is passed by, or it is a label that the
-- registry takes: registering the record's target is not refused for a label that is missing,
-- invalid or another target's.
pub auto_label-is_about_label :
    (net : Net) (codec : Codec) (rec : UrlRecord) (index : ℕ) (reason : Bytes) (u : Url)
    (r : Registry)
    → ((resolve_auto_label_collision (build_auto_label rec index) r).0 ≡ [])
      ⊎ (is_about_label (
            register_target net codec
              (auto_target rec
                (resolve_auto_label_collision (build_auto_label rec index) r).0
                reason
                u)
              r)
          ≡ false)
auto_label-is_about_label net codec rec index reason u r =
    elim (resolve_auto_label_collision-IsFound (build_auto_label rec index) r
      (build_auto_label-IsLabel rec index)) [
        | inl e ↦ inl e
        | inr f ↦ inr (
            IsClear-lem _ (
              free-IsClear net codec rec
                (resolve_auto_label_collision (build_auto_label rec index) r).0 reason u r f))
      ]
