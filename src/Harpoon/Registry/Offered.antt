-- ===== src/Harpoon/Registry/Offered.antt =====
-- A registry holds only what it was offered: pkg/runtimeharpoon/registry.go.
use tunnel_client.Base.{
  ◌≡◌, refl, ap, sym, subst, ◌∙◌, ◌⊎◌, Bool, true, false, ◌||◌, Option, none, some, List, [], ◌∷◌,
  Bytes, bytes_eq_iff, if◌then◌else◌, is_some, not, is_empty, inl, inr,
}
use mathlib.Core.List.{Memᴰ}
use tunnel_client.Harpoon.Urls.{Url, Net, lowered, has_scheme_and_host, normalized_url_key}
use tunnel_client.Harpoon.Target.{TargetTemplate, Target, Codec}
use tunnel_client.Harpoon.Registry.{
  exact_key, is_key, key_unless, clean_target, admitted, resolve, resolved, compiled, with_base,
  Registry, Registration, registered, refused, register_target, register_each, kept, unresolved,
  combined_template,
}
use tunnel_client.Harpoon.Registry.Keys.{normalized_url_key-some, normalized_url_key-lowered}
use tunnel_client.Harpoon.Registry.Admitted.{Admission, register_target-Admission}

-- The key of a target that is offered for registration: `none` for a template.
abbrev pub offered_key : Net → Target → Option (Option TargetTemplate) → Option Bytes
offered_key net t none = key_unless net t.template t.base_url
offered_key net t (some answer) = none

-- Some exact target with the key was offered.
abbrev pub is_offered : Net → Bytes → List Target → Bool
is_offered net k [] = false
is_offered net k (t ∷ ts) = is_key k (offered_key net t t.template_input) || is_offered net k ts

with_base-exact :
    (net : Net) (template : Option TargetTemplate) (base : Option Url) (raw : Url)
    → with_base template base ≡ resolved none raw
    → key_unless net template base ≡ normalized_url_key net raw
with_base-exact net none none raw h = cc
with_base-exact net none (some u) raw h = let e : u ≡ raw = cc in ap (normalized_url_key net) e
with_base-exact net (some t) none raw h = cc
with_base-exact net (some t) (some u) raw h = cc

-- A template does not resolve to an exact URL.
compiled-never :
    {A : Type 0} (b : Bool) (answer : Option TargetTemplate) (raw : Url)
    → (if b then unresolved combined_template else compiled answer) ≡ resolved none raw
    → A
compiled-never true answer raw h = cc
compiled-never false none raw h = cc
compiled-never false (some t) raw h = cc

-- A target that resolves to an exact URL was offered with it.
resolve-exact :
    (net : Net) (t : Target) (input : Option (Option TargetTemplate)) (raw : Url)
    → resolve t input ≡ resolved none raw
    → offered_key net t input ≡ normalized_url_key net raw
resolve-exact net t none raw h = with_base-exact net t.template t.base_url raw h
resolve-exact net t (some answer) raw h =
    compiled-never (is_some t.base_url || not (is_empty t.unix_socket_path)) answer raw h

exact_key-template :
    (net : Net) (target : Target) (template : Option TargetTemplate) (raw : Url) (k : Bytes)
    → has_scheme_and_host raw ≡ true
    → exact_key net (clean_target target template raw (lowered raw)) ≡ some k
    → (template ≡ none) × (normalized_url_key net raw ≡ some k)
unfolding clean_target exact_key
exact_key-template net target none raw k w h =
    (refl, normalized_url_key-some net raw w ∙ sym (normalized_url_key-lowered net raw w) ∙ h)
exact_key-template net target (some t) raw k w h = cc

is_offered_by_key :
    (net : Net) (k : Bytes) (o : Option Bytes) (rest : Bool)
    → o ≡ some k
    → (is_key k o || rest) ≡ true
is_offered_by_key net k o rest h = rw (h, (bytes_eq_iff k k).1 refl) refl

or_right : (a b : Bool) → b ≡ true → (a || b) ≡ true
or_right true b h = refl
or_right false b h = h

Admission-is_offered :
    (net : Net) (codec : Codec) (target : Target) (r r' : Registry) (k : Bytes) (e : Bytes × Target)
    → Admission net codec target r r'
    → exact_key net e.1 ≡ some k
    → Memᴰ e r'.targets
    → Memᴰ e r.targets ⊎ (offered_key net target target.template_input ≡ some k)
unfolding admitted
Admission-is_offered net codec target r r' k e a h m =
    elim (subst (λ x. Memᴰ e x.targets) a.result m) [
      | Memᴰ.head p ↦
          let f =
            exact_key-template net target a.template a.raw k a.whole
              (ap (λ x. exact_key net x.1) (sym p) ∙ h) in
          inr (resolve-exact net target _ a.raw (a.resolves ∙ ap (λ t. resolved t a.raw) f.0) ∙ f.1)
      | Memᴰ.tail n ↦ inl n
    ]

pub kept-is_offered :
    (net : Net) (codec : Codec) (target : Target) (r : Registry) (x : Registration) (k : Bytes)
    (e : Bytes × Target)
    → register_target net codec target r ≡ x
    → exact_key net e.1 ≡ some k
    → Memᴰ e (kept r x).targets
    → Memᴰ e r.targets ⊎ (offered_key net target target.template_input ≡ some k)
kept-is_offered net codec target r (refused y) k e g h m = inl m
kept-is_offered net codec target r (registered r') k e g h m =
    Admission-is_offered net codec target r r' k e
      (register_target-Admission net codec target r r' g) h m

-- An exact target that is registered was in the registry before or was offered.
pub register_each-is_offered :
    (net : Net) (codec : Codec) (targets : List Target) (r : Registry) (k : Bytes)
    (e : Bytes × Target)
    → exact_key net e.1 ≡ some k
    → Memᴰ e (register_each net codec targets r).targets
    → Memᴰ e r.targets ⊎ (is_offered net k targets ≡ true)
unfolding register_each
register_each-is_offered net codec [] r k e h m = inl m
register_each-is_offered net codec (t ∷ ts) r k e h m =
    elim (register_each-is_offered net codec ts (kept r (register_target net codec t r)) k e h m) [
      | inr o ↦ inr (or_right _ _ o)
      | inl n ↦ elim (kept-is_offered net codec t r _ k e refl h n) [
        | inl q ↦ inl q
        | inr q ↦ inr (is_offered_by_key net k _ (is_offered net k ts) q)
      ]
    ]
