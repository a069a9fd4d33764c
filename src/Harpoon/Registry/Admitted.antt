-- ===== src/Harpoon/Registry/Admitted.antt =====
-- What a target that is registered has passed: pkg/runtimeharpoon/registry.go.
use tunnel_client.Base.{
  ◌≡◌, refl, sym, ◌∙◌, ℕ, ◌+◌, Bool, true, false, not, ◌&&◌, ◌||◌, Option, none, some, ltb, leb,
  if◌then◌else◌, trim_space, length, is_some,
}
use tunnel_client.Harpoon.Urls.{
  Url, Net, is_https, has_scheme_and_host, normalize_url, lowered, has_traversal,
}
use tunnel_client.Harpoon.Metadata.{holds_text}
use tunnel_client.Harpoon.Target.{
  TargetTemplate, has_rich_header_rules, is_loopback_http, Target, Codec,
  max_template_catalog_bytes, target_discovery_bytes, matches_label_pattern,
}
use tunnel_client.Harpoon.Registry.{
  RegisterError, Registry, Registration, registered, refused, Resolution, resolved, unresolved,
  has_different_transport_for_url, has_label, clean_target, admitted, admit, admit_sized, resolve,
  cleaned, with_normalized, with_resolution, register_target,
}

-- Every check that a registered target has passed.
pub record Admission (net : Net) (codec : Codec) (target : Target) (r r' : Registry) : Type 0 where
  pub template : Option TargetTemplate
  pub raw : Url
  pub bytes : ℕ
  pub resolves : resolve target target.template_input ≡ resolved template raw
  pub size :
      target_discovery_bytes codec (clean_target target template raw (lowered raw)) ≡ some bytes
  pub result :
      r' ≡ admitted net (clean_target target template raw (lowered raw)) (lowered raw) bytes r
  pub label : matches_label_pattern (trim_space target.label) ≡ true
  pub whole : has_scheme_and_host raw ≡ true
  pub plain :
      (not r.allow_plaintext && (not (is_https raw) && not (is_loopback_http template))) ≡ false
  pub straight : has_traversal raw.path ≡ false
  pub fresh : has_label (clean_target target template raw (lowered raw)).label r.targets ≡ false
  pub transport :
      (not (is_some (clean_target target template raw (lowered raw)).template)
        && (holds_text (net.string (lowered raw)) r.target_url_keys
            && has_different_transport_for_url net r
                (lowered raw)
                (clean_target target template raw (lowered raw)).unix_socket_path))
      ≡ false
  pub room : leb r.limit (length r.targets) ≡ false
  pub budget :
      ((r.has_rich_templates
          || has_rich_header_rules (clean_target target template raw (lowered raw)).template)
        && ltb max_template_catalog_bytes (bytes + r.discovery_bytes))
      ≡ false

passes :
    (b : Bool) (e : RegisterError) (x : Registration) (r : Registry)
    → (if b then refused e else x) ≡ registered r
    → (b ≡ false) × (x ≡ registered r)
passes true e x r h = cc
passes false e x r h = (cc, h)

refused_never : {A : Type 0} (e : RegisterError) (r : Registry) → refused e ≡ registered r → A
refused_never e r h = cc

registered-same : (r r' : Registry) → registered r ≡ registered r' → r' ≡ r
registered-same r r' h = cc

not-false : (b : Bool) → not b ≡ false → b ≡ true
not-false true h = refl
not-false false h = cc

-- The part of an admission that the locked section gives.
admit-registered :
    (net : Net) (t : Target) (u : Url) (bytes : ℕ) (r r' : Registry)
    → admit net t u bytes r ≡ registered r'
    → (has_label t.label r.targets ≡ false)
      × ((not (is_some t.template)
            && (holds_text (net.string u) r.target_url_keys
                && has_different_transport_for_url net r u t.unix_socket_path))
          ≡ false)
      × (leb r.limit (length r.targets) ≡ false)
      × (((r.has_rich_templates || has_rich_header_rules t.template)
            && ltb max_template_catalog_bytes (bytes + r.discovery_bytes))
          ≡ false)
      × (r' ≡ admitted net t u bytes r)
unfolding admit
admit-registered net t u bytes r r' h =
    let a = passes _ _ _ r' h in
    let b = passes _ _ _ r' a.1 in
    let c = passes _ _ _ r' b.1 in
    let d = passes _ _ _ r' c.1 in (a.0, b.0, c.0, d.0, registered-same _ r' d.1)

-- A resolved target that is registered is admitted.
admit_sized-Admission :
    (net : Net) (codec : Codec) (target : Target) (r r' : Registry)
    (template : Option TargetTemplate) (raw : Url) (size : Option ℕ)
    → target_discovery_bytes codec (clean_target target template raw (lowered raw)) ≡ size
    → resolve target target.template_input ≡ resolved template raw
    → matches_label_pattern (trim_space target.label) ≡ true
    → has_scheme_and_host raw ≡ true
    → (not r.allow_plaintext && (not (is_https raw) && not (is_loopback_http template))) ≡ false
    → has_traversal raw.path ≡ false
    → admit_sized net (clean_target target template raw (lowered raw)) (lowered raw) size r
      ≡ registered r'
    → Admission net codec target r r'
admit_sized-Admission net codec target r r' template raw none ds re dl dw dp dt h =
    refused_never _ r' h
admit_sized-Admission net codec target r r' template raw (some bytes) ds re dl dw dp dt h =
    let f = admit-registered net _ (lowered raw) bytes r r' h in
    record {
      template = template;
      raw = raw;
      bytes = bytes;
      resolves = re;
      size = ds;
      result = f.4;
      label = dl;
      whole = dw;
      plain = dp;
      straight = dt;
      fresh = f.0;
      transport = f.1;
      room = f.2;
      budget = f.3;
    }

with_normalized_lem :
    (net : Net) (codec : Codec) (target : Target) (r : Registry) (template : Option TargetTemplate)
    (raw : Url)
    → has_scheme_and_host raw ≡ true
    → with_normalized net codec target template raw (normalize_url raw) r
      ≡ admit_sized net
          (clean_target target template raw (lowered raw))
          (lowered raw)
          (target_discovery_bytes codec (clean_target target template raw (lowered raw)))
          r
unfolding normalize_url target_discovery_bytes with_normalized cleaned
with_normalized_lem net codec target r template raw h = rw h refl

with_resolution-Admission :
    (net : Net) (codec : Codec) (target : Target) (r r' : Registry) (s : Resolution)
    → resolve target target.template_input ≡ s
    → matches_label_pattern (trim_space target.label) ≡ true
    → with_resolution net codec target s r ≡ registered r'
    → Admission net codec target r r'
unfolding with_resolution
with_resolution-Admission net codec target r r' (unresolved e) re dl h = refused_never e r' h
with_resolution-Admission net codec target r r' (resolved template raw) re dl h =
    let a = passes _ _ _ r' h in
    let b = passes _ _ _ r' a.1 in
    let c = passes _ _ _ r' b.1 in
    let d = passes _ _ _ r' c.1 in
    let whole = not-false _ a.0 in
    admit_sized-Admission net codec target r r' template raw _ refl re dl whole b.0 d.0
      (sym (with_normalized_lem net codec target r template raw whole) ∙ d.1)

pub register_target-Admission :
    (net : Net) (codec : Codec) (target : Target) (r r' : Registry)
    → register_target net codec target r ≡ registered r'
    → Admission net codec target r r'
unfolding register_target
register_target-Admission net codec target r r' h =
    let a = passes _ _ _ r' h in
    let b = passes _ _ _ r' a.1 in
    with_resolution-Admission net codec target r r' _ refl (not-false _ b.0) b.1
