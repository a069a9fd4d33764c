-- ===== src/Harpoon/HostRegistration/Trusted.antt =====
-- Only trusted records are registered: pkg/runtimeharpoon/host_registration.go.
use tunnel_client.Base.{
  ◌≡◌, refl, ap, sym, ◌∙◌, ◌⊎◌, ℕ, ◌+◌, Bool, true, false, ◌&&◌, ◌||◌, Option, none, some, List, [],
  ◌∷◌, ◌++◌, if◌then◌else◌, Bytes, inl, inr, arith, bytes_eq_iff, append-nil,
}
use mathlib.Core.List.{Memᴰ}
use tunnel_client.Harpoon.Urls.{Url, Net, hostname, normalized_url_key}
use tunnel_client.Harpoon.Target.{Target, Codec}
use tunnel_client.Harpoon.Registry.{Registry, exact_key, is_key}
use tunnel_client.Harpoon.Registry.Offered.{kept-is_offered}
use tunnel_client.Harpoon.Labels.{resolve_auto_label_collision}
use tunnel_client.Harpoon.Hosts.{
  UrlRecord, HostClassifier, is_private_host, is_oauth_url_record, Origin, is_same_origin,
}
use tunnel_client.Harpoon.HostPolicy.{
  HostPolicy, seeds_policy, origin_of, add_origin, seeded, policy_from, empty_policy,
  new_host_policy, holds_origin, is_exact_origin, policy_allows, ForwardingOrigin,
  forwarding_allows,
}
use tunnel_client.Harpoon.HostRegistration.{
  should_register_url_record, judged, build_auto_label, auto_target, register_labelled, disallowed,
  not_disallowed, register_admitted, register_record, register_records, register_host_bundle,
}

-- Some record of the bundle that seeds the policy has the origin.
abbrev pub is_seeded_origin : Net → Origin → List UrlRecord → Bool
is_seeded_origin net o [] = false
is_seeded_origin net o (rec ∷ recs) =
    (seeds_policy rec && is_exact_origin (some o) (add_origin (origin_of net rec.url) []))
    || is_seeded_origin net o recs

abbrev pub is_seeded : Net → Option Origin → List UrlRecord → Bool
is_seeded net none recs = false
is_seeded net (some o) recs = is_seeded_origin net o recs

-- Whether a record is trusted within its bundle. One whose private host is not to be registered
-- must be an OAuth one at the very origin of a record that seeds the policy.
abbrev pub is_trusted :
    Net → HostClassifier → List ForwardingOrigin → List UrlRecord → UrlRecord → Url → Bool
is_trusted net classifier forwarding bundle rec u =
    forwarding_allows net forwarding rec
    || (if rec.disallow_private_host_registration
        then is_oauth_url_record rec && is_seeded net (origin_of net rec.url) bundle
        else (is_private_host net classifier (hostname u)).0
          || policy_allows net (new_host_policy net bundle) rec)

abbrev pub is_trusted_at :
    Net
    → HostClassifier
    → List ForwardingOrigin
    → List UrlRecord
    → Bytes
    → UrlRecord
    → Option Url
    → Bool
is_trusted_at net classifier forwarding bundle k rec none = false
is_trusted_at net classifier forwarding bundle k rec (some u) =
    is_trusted net classifier forwarding bundle rec u && is_key k (normalized_url_key net u)

-- Some trusted record of `recs` has a URL of that key.
abbrev pub is_trusted_key :
    Net → HostClassifier → List ForwardingOrigin → List UrlRecord → Bytes → List UrlRecord → Bool
is_trusted_key net classifier forwarding bundle k [] = false
is_trusted_key net classifier forwarding bundle k (rec ∷ recs) =
    is_trusted_at net classifier forwarding bundle k rec rec.url
    || is_trusted_key net classifier forwarding bundle k recs

or_assoc : (a b c : Bool) → (a || (b || c)) ≡ ((a || b) || c)
or_assoc a b c = ground arith

or_false : (a : Bool) → a ≡ (a || false)
or_false a = ground arith

holds_origin-append :
    (o : Origin) (ps qs : List Origin)
    → holds_origin o (ps ++ qs) ≡ (holds_origin o ps || holds_origin o qs)
holds_origin-append o [] qs = refl
holds_origin-append o (p ∷ ps) qs =
    rw (holds_origin-append o ps qs) (or_assoc (is_same_origin o p) _ _)

add_origin_append : (x : Option Origin) (os : List Origin) → add_origin x os ≡ os ++ add_origin x []
add_origin_append none os = sym (append-nil os)
add_origin_append (some o) os = refl

seeded_if-origins :
    (net : Net) (o : Origin) (p : HostPolicy) (rec : UrlRecord) (b : Bool)
    → holds_origin o (if b then seeded net rec p else p).exact_origins ≡ (
        holds_origin o p.exact_origins
        || (b && is_exact_origin (some o) (add_origin (origin_of net rec.url) [])))
unfolding seeded
seeded_if-origins net o p rec true =
    ap (holds_origin o) (add_origin_append (origin_of net rec.url) p.exact_origins)
    ∙ holds_origin-append o p.exact_origins (add_origin (origin_of net rec.url) [])
seeded_if-origins net o p rec false = or_false _

-- The exact origins of the policy are those of the records that seed it.
policy_from-origins :
    (net : Net) (o : Origin) (p : HostPolicy) (recs : List UrlRecord)
    → holds_origin o (policy_from net p recs).exact_origins
      ≡ (holds_origin o p.exact_origins || is_seeded_origin net o recs)
unfolding policy_from
policy_from-origins net o p [] = or_false _
policy_from-origins net o p (rec ∷ recs) =
    policy_from-origins net o (if seeds_policy rec then seeded net rec p else p) recs
    ∙ ap (λ b. b || is_seeded_origin net o recs) (seeded_if-origins net o p rec (seeds_policy rec))
    ∙ sym (or_assoc (holds_origin o p.exact_origins) _ _)

is_exact_origin-seeded :
    (net : Net) (x : Option Origin) (bundle : List UrlRecord)
    → is_exact_origin x (new_host_policy net bundle).exact_origins ≡ is_seeded net x bundle
unfolding new_host_policy
is_exact_origin-seeded net none bundle = refl
is_exact_origin-seeded net (some o) bundle = policy_from-origins net o empty_policy bundle

policy_allows-disallowed :
    (net : Net) (bundle : List UrlRecord) (rec : UrlRecord)
    → rec.disallow_private_host_registration ≡ true
    → policy_allows net (new_host_policy net bundle) rec
      ≡ (is_oauth_url_record rec && is_seeded net (origin_of net rec.url) bundle)
unfolding policy_allows
policy_allows-disallowed net bundle rec h = rw h (
    ap (λ b. is_oauth_url_record rec && b)
      (is_exact_origin-seeded net (origin_of net rec.url) bundle))

if_agrees : (d a t : Bool) → (d ≡ true → a ≡ t) → (if d then a else t) ≡ t
if_agrees true a t h = h refl
if_agrees false a t h = refl

verdict_lem :
    (f d a t : Bool) (p : Bool × Bytes) (x : Bytes)
    → (if d then a else t) ≡ t
    → (if f then (true, x) else (if d then disallowed p a else not_disallowed p a)).0 ≡ true
    → (f || (if d then t else p.0 || a)) ≡ true
verdict_lem true d a t p x e h = refl
verdict_lem false true true t p x e h = sym e
verdict_lem false true false t (true, y) x e h = cc
verdict_lem false true false t (false, y) x e h = cc
verdict_lem false false a t (true, y) x e h = refl
verdict_lem false false true t (false, y) x e h = refl
verdict_lem false false false t (false, y) x e h = cc

judged-trusted :
    (net : Net) (rec : UrlRecord) (classifier : HostClassifier) (bundle : List UrlRecord)
    (forwarding : List ForwardingOrigin) (u : Url)
    → (judged net rec classifier (new_host_policy net bundle) forwarding (some u)).0 ≡ true
    → is_trusted net classifier forwarding bundle rec u ≡ true
unfolding judged
judged-trusted net rec classifier bundle forwarding u h =
    verdict_lem (forwarding_allows net forwarding rec) rec.disallow_private_host_registration
      (policy_allows net (new_host_policy net bundle) rec)
      (is_oauth_url_record rec && is_seeded net (origin_of net rec.url) bundle)
      (is_private_host net classifier (hostname u)) _
      (if_agrees _ _ _ (policy_allows-disallowed net bundle rec)) h

-- What registering one record adds.
register_labelled-trusted :
    (net : Net) (codec : Codec) (rec : UrlRecord) (reason : Bytes) (u : Url) (label : Bytes)
    (r : Registry) (k : Bytes) (e : Bytes × Target)
    → exact_key net e.1 ≡ some k
    → Memᴰ e (register_labelled net codec rec reason u label r).targets
    → Memᴰ e r.targets ⊎ (normalized_url_key net u ≡ some k)
unfolding register_labelled auto_target
register_labelled-trusted net codec rec reason u [] r k e h m = inl m
register_labelled-trusted net codec rec reason u (c ∷ l) r k e h m =
    kept-is_offered net codec (auto_target rec (c ∷ l) reason u) r _ k e refl h m

register_admitted-trusted :
    (net : Net) (codec : Codec) (rec : UrlRecord) (index : ℕ) (verdict : Bool × Bytes) (u : Url)
    (r : Registry) (k : Bytes) (e : Bytes × Target)
    → exact_key net e.1 ≡ some k
    → Memᴰ e (register_admitted net codec rec index verdict (some u) r).targets
    → Memᴰ e r.targets ⊎ ((verdict.0 ≡ true) × (normalized_url_key net u ≡ some k))
unfolding register_admitted
register_admitted-trusted net codec rec index (false, reason) u r k e h m = inl m
register_admitted-trusted net codec rec index (true, reason) u r k e h m =
    elim (register_labelled-trusted net codec rec reason u
      (resolve_auto_label_collision (build_auto_label rec index) r).0 r k e h m) [
        | inl n ↦ inl n
        | inr n ↦ inr (refl, n)
      ]

trusted_key_lem :
    (k : Bytes) (o : Option Bytes) (b : Bool) → b ≡ true → o ≡ some k → (b && is_key k o) ≡ true
trusted_key_lem k o b h e = rw (h, e, (bytes_eq_iff k k).1 refl) refl

record-trusted :
    (net : Net) (codec : Codec) (classifier : HostClassifier) (bundle : List UrlRecord)
    (forwarding : List ForwardingOrigin) (index : ℕ) (rec : UrlRecord) (url : Option Url)
    (r : Registry) (k : Bytes) (e : Bytes × Target)
    → exact_key net e.1 ≡ some k
    → Memᴰ e
        (register_admitted net codec rec index
          (judged net rec classifier (new_host_policy net bundle) forwarding url)
          url
          r).targets
    → Memᴰ e r.targets ⊎ (is_trusted_at net classifier forwarding bundle k rec url ≡ true)
unfolding register_admitted
record-trusted net codec classifier bundle forwarding index rec none r k e h m = inl m
record-trusted net codec classifier bundle forwarding index rec (some u) r k e h m =
    elim (register_admitted-trusted net codec rec index
      (judged net rec classifier (new_host_policy net bundle) forwarding (some u)) u r k e h m) [
        | inl n ↦ inl n
        | inr n ↦ inr (
            trusted_key_lem k (normalized_url_key net u) _
              (judged-trusted net rec classifier bundle forwarding u n.0) n.1)
      ]

or_left : (a b : Bool) → a ≡ true → (a || b) ≡ true
or_left a b h = ground arith

or_right : (a b : Bool) → b ≡ true → (a || b) ≡ true
or_right a b h = ground arith

records-trusted :
    (net : Net) (codec : Codec) (classifier : HostClassifier) (bundle : List UrlRecord)
    (forwarding : List ForwardingOrigin) (index : ℕ) (recs : List UrlRecord) (r : Registry)
    (k : Bytes) (e : Bytes × Target)
    → exact_key net e.1 ≡ some k
    → Memᴰ e
        (register_records net codec classifier
          (new_host_policy net bundle)
          forwarding
          index
          recs
          r).targets
    → Memᴰ e r.targets ⊎ (is_trusted_key net classifier forwarding bundle k recs ≡ true)
unfolding register_records register_record should_register_url_record
records-trusted net codec classifier bundle forwarding index [] r k e h m = inl m
records-trusted net codec classifier bundle forwarding index (rec ∷ recs) r k e h m =
    elim (records-trusted net codec classifier bundle forwarding (index + 1) recs _ k e h m) [
      | inr t ↦ inr (or_right _ _ t)
      | inl n ↦
          elim (record-trusted net codec classifier bundle forwarding index rec rec.url r k e h n) [
            | inl q ↦ inl q
            | inr q ↦
                inr (or_left (is_trusted_at net classifier forwarding bundle k rec rec.url) _ q)
          ]
    ]

-- Of the targets with an exact URL, a bundle adds only those of its records that are trusted: at a
-- forwarding origin of the configuration; or, where the record forbids its private host, as an
-- OAuth record at the very origin of a record of the bundle that seeds the policy; or else at a
-- private host, or at one that the policy of the bundle allows.
pub register_host_bundle-is_trusted :
    (net : Net) (codec : Codec) (bundle : List UrlRecord) (classifier : HostClassifier)
    (r : Registry) (forwarding : List ForwardingOrigin) (k : Bytes) (e : Bytes × Target)
    → exact_key net e.1 ≡ some k
    → Memᴰ e (register_host_bundle net codec bundle classifier r forwarding).targets
    → Memᴰ e r.targets ⊎ (is_trusted_key net classifier forwarding bundle k bundle ≡ true)
unfolding register_host_bundle
register_host_bundle-is_trusted net codec bundle classifier r forwarding k e h m =
    records-trusted net codec classifier bundle forwarding 0 bundle r k e h m
