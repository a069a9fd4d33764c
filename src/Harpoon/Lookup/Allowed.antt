-- ===== src/Harpoon/Lookup/Allowed.antt =====
-- Only what was offered is allowed: `AllowsURL` in pkg/runtimeharpoon/registry.go.
use tunnel_client.Base.{
  ◌≡◌, refl, ap, ◌∙◌, ℕ, Bool, true, false, not, ◌&&◌, ◌||◌, Option, none, some, List, [], ◌∷◌,
  if◌then◌else◌, Bytes, Bool-cases, inl, inr, arith,
}
use mathlib.Core.List.{Memᴰ}
use tunnel_client.Harpoon.Urls.{
  Url, Net, normalized_url_key, is_https, has_scheme_and_host, has_traversal,
}
use tunnel_client.Harpoon.Target.{Target, Codec}
use tunnel_client.Harpoon.Registry.{
  Registry, Registration, registered, refused, register_target, admitted, kept, exact_key, is_key,
  register_each, empty_registry,
}
use tunnel_client.Harpoon.Registry.Admitted.{register_target-Admission}
use tunnel_client.Harpoon.Registry.Keys.{is_key-some}
use tunnel_client.Harpoon.Registry.Offered.{is_offered, register_each-is_offered}
use tunnel_client.Harpoon.Lookup.{some_with_key, allows_url}

abbrev pub is_offered_key : Net → Option Bytes → List Target → Bool
is_offered_key net none targets = false
is_offered_key net (some k) targets = is_offered net k targets

-- What an allowed URL passes by itself.
abbrev pub is_candidate : (allow_plaintext : Bool) → Url → Bool
is_candidate allow_plaintext u =
    has_scheme_and_host u && ((allow_plaintext || is_https u) && not (has_traversal u.path))

some_with_key-found :
    (net : Net) (k : Bytes) (visits : List (Bytes × Target))
    → some_with_key net (some k) visits ≡ true
    → (e : Bytes × Target) × Memᴰ e visits × (exact_key net e.1 ≡ some k)
some_with_key-found net k [] h = cc
some_with_key-found net k ((l, s) ∷ ts) h = elim (Bool-cases (is_key k (exact_key net s))) [
  | inl a ↦ ((l, s), Memᴰ.head refl, is_key-some k _ a)
  | inr b ↦ let f = some_with_key-found net k ts (rw b at h) in (f.0, Memᴰ.tail f.1, f.2)
]

allowed_lem :
    (whole allow https bad found : Bool)
    → (if not whole
        then false
        else (if not allow && not https then false else (if bad then false else found)))
      ≡ true
    → ((whole && ((allow || https) && not bad)) ≡ true) × (found ≡ true)
allowed_lem whole allow https bad found h = ground arith

offered_by_key :
    (net : Net) (codec : Codec) (allow_plaintext : Bool) (limit : ℕ) (targets : List Target)
    (visits : List (Bytes × Target)) (o : Option Bytes)
    → ((e : Bytes × Target)
        → Memᴰ e visits
        → Memᴰ e (register_each net codec targets (empty_registry allow_plaintext limit)).targets)
    → some_with_key net o visits ≡ true
    → is_offered_key net o targets ≡ true
offered_by_key net codec allow_plaintext limit targets visits none v h = cc
offered_by_key net codec allow_plaintext limit targets visits (some k) v h =
    let f = some_with_key-found net k visits h in
    elim (register_each-is_offered net codec targets (empty_registry allow_plaintext limit) k f.0
      f.2 (v f.0 f.1)) [ inl m ↦ elim m [ ] | inr o ↦ o ]

kept-allow_plaintext :
    (net : Net) (codec : Codec) (target : Target) (r : Registry) (x : Registration)
    → register_target net codec target r ≡ x
    → (kept r x).allow_plaintext ≡ r.allow_plaintext
unfolding admitted
kept-allow_plaintext net codec target r (refused e) h = refl
kept-allow_plaintext net codec target r (registered r') h =
    ap (λ q. q.allow_plaintext) (register_target-Admission net codec target r r' h).result

register_each-allow_plaintext :
    (net : Net) (codec : Codec) (targets : List Target) (r : Registry)
    → (register_each net codec targets r).allow_plaintext ≡ r.allow_plaintext
unfolding register_each
register_each-allow_plaintext net codec [] r = refl
register_each-allow_plaintext net codec (t ∷ ts) r =
    register_each-allow_plaintext net codec ts _ ∙ kept-allow_plaintext net codec t r _ refl

-- In a registry of whatever targets were offered, a URL is allowed only if it has a scheme and a
-- host, uses https unless plaintext is allowed, has no traversal in its path, and was offered: some
-- target without a template has a URL of the same normalized key.
pub allows_url-is_offered :
    (net : Net) (codec : Codec) (allow_plaintext : Bool) (limit : ℕ) (targets : List Target)
    (visits : List (Bytes × Target)) (u : Url)
    → ((e : Bytes × Target)
        → Memᴰ e visits
        → Memᴰ e (register_each net codec targets (empty_registry allow_plaintext limit)).targets)
    → allows_url net visits
        (register_each net codec targets (empty_registry allow_plaintext limit))
        u
      ≡ true
    → (is_candidate allow_plaintext u ≡ true)
      × (is_offered_key net (normalized_url_key net u) targets ≡ true)
unfolding allows_url
allows_url-is_offered net codec allow_plaintext limit targets visits u v h =
    let r = register_each net codec targets (empty_registry allow_plaintext limit) in
    let a =
      allowed_lem (has_scheme_and_host u) r.allow_plaintext (is_https u) (has_traversal u.path)
        (some_with_key net (normalized_url_key net u) visits) h in
    (
      rw (register_each-allow_plaintext net codec targets (empty_registry allow_plaintext limit)) at
          a.0,
      offered_by_key net codec allow_plaintext limit targets visits (normalized_url_key net u) v
          a.1,
    )
