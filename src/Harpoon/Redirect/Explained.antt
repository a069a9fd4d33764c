-- ===== src/Harpoon/Redirect/Explained.antt =====
-- The cache of explanations is not observable: pkg/runtimeharpoon/registry.go.
use tunnel_client.Base.{
  ◌≡◌, refl, ap, sym, ◌∙◌, ℕ, Bool, false, not, ◌||◌, Option, none, some, List, if◌then◌else◌,
  Bytes, Bool-cases, inl, inr, All,
}
use tunnel_client.Harpoon.Urls.{Url, Net, has_scheme_and_host, normalized_url_key, has_traversal}
use tunnel_client.Harpoon.Metadata.{holds_text}
use tunnel_client.Harpoon.Target.{Codec}
use tunnel_client.Harpoon.Registry.{Registry}
use tunnel_client.Harpoon.Registry.Keys.{IsIndexed, has_exact_key}
use tunnel_client.Harpoon.Redirect.{
  Entry, ExplainCache, cached, redirect_explain_cache_key, explain_key, explain_blocked_redirect,
  from_cache_or, other_details, explain_from_targets, analyze_redirect_url,
}
use tunnel_client.Harpoon.Redirect.Cache.{IsBounded}
use tunnel_client.Harpoon.Redirect.Calls.{Call, new_state, calls}
use tunnel_client.Harpoon.Redirect.Faithful.{
  IsFaithful, Backs, fresh, explained_urls, calls-IsGood, new-IsGood,
}

-- The answer for a key, from the registered targets alone.
abbrev pub explanation_of_key : Net → Registry → Url → Option Bytes → Entry
explanation_of_key net r u none = some other_details
explanation_of_key net r u (some k) =
    if has_exact_key net k r.targets then none else some (explain_from_targets net r u)

-- The answer from the registered targets alone, without the cache and without the index of keys.
abbrev pub explanation : Net → Registry → Url → Entry
explanation net r u =
    if not (has_scheme_and_host u) || has_traversal u.path
    then some other_details
    else explanation_of_key net r u (normalized_url_key net u)

-- If `v` has the key in the cache that `u` has, then it has the key of `u`, and is taken apart in the
-- same way.
abbrev pub IsApart : Net → (digest : Bytes → Bytes) → Url → Url → Type 0
IsApart net digest u v =
    (i j : Bytes)
    → normalized_url_key net v ≡ some i
    → normalized_url_key net u ≡ some j
    → redirect_explain_cache_key digest i ≡ redirect_explain_cache_key digest j
    → (i ≡ j) × (analyze_redirect_url net v ≡ analyze_redirect_url net u)

explain_from_targets_same :
    (net : Net) (r : Registry) (v u : Url)
    → analyze_redirect_url net v ≡ analyze_redirect_url net u
    → explain_from_targets net r v ≡ explain_from_targets net r u
unfolding explain_from_targets
explain_from_targets_same net r v u h = rw h refl

fresh_same :
    (net : Net) (digest : Bytes → Bytes) (r : Registry) (u : Url) (k : Bytes) (e : Entry)
    → normalized_url_key net u ≡ some k
    → Backs net digest (IsApart net digest u) r (redirect_explain_cache_key digest k) e
    → e ≡ fresh net r u k
fresh_same net digest r u k e n (v, q, i, m, same, is_fresh) =
    let (i_k, analyzed) = q i k m n same in
    is_fresh
    ∙ ap (fresh net r v) i_k
    ∙ ap (λ d. if holds_text k r.target_url_keys then none else some d)
        (explain_from_targets_same net r v u analyzed)

from_cache_or-fresh :
    (net : Net) (digest : Bytes → Bytes) (r : Registry) (u : Url) (k : Bytes) (o : Option Entry)
    (c : ExplainCache)
    → normalized_url_key net u ≡ some k
    → IsFaithful net digest (IsApart net digest u) r c
    → holds_text k r.target_url_keys ≡ false
    → cached (redirect_explain_cache_key digest k) c.entries ≡ o
    → (from_cache_or (redirect_explain_cache_key digest k) o (explain_from_targets net r u) c).0
      ≡ some (explain_from_targets net r u)
unfolding from_cache_or
from_cache_or-fresh net digest r u k none c n f b h = refl
from_cache_or-fresh net digest r u k (some e) c n f b h =
    fresh_same net digest r u k e n (f.1 (redirect_explain_cache_key digest k) e h) ∙ rw b refl

explain_key-fresh :
    (net : Net) (digest : Bytes → Bytes) (r : Registry) (u : Url) (o : Option Bytes)
    (c : ExplainCache)
    → normalized_url_key net u ≡ o
    → IsIndexed net r
    → IsFaithful net digest (IsApart net digest u) r c
    → (explain_key net digest r u o c).0 ≡ explanation_of_key net r u o
unfolding explain_key
explain_key-fresh net digest r u none c n i f = refl
explain_key-fresh net digest r u (some k) c n i f =
    elim (Bool-cases (holds_text k r.target_url_keys)) [
      | inl a ↦ rw (a, sym (i k) ∙ a) refl
      | inr b ↦ rw (b, sym (i k) ∙ b) (from_cache_or-fresh net digest r u k _ c n f b refl)
    ]

explain_blocked_redirect_fresh :
    (net : Net) (digest : Bytes → Bytes) (r : Registry) (u : Url) (c : ExplainCache)
    → IsIndexed net r
    → IsFaithful net digest (IsApart net digest u) r c
    → (explain_blocked_redirect net digest r u c).0 ≡ explanation net r u
unfolding explain_blocked_redirect
explain_blocked_redirect_fresh net digest r u c i f =
    elim (Bool-cases (not (has_scheme_and_host u) || has_traversal u.path)) [
      | inl a ↦ rw a refl
      | inr b ↦ rw b (explain_key-fresh net digest r u _ c refl i f)
    ]

-- From a new registry, after any registrations and explanations, the answer for a redirect is the
-- one that the registered targets alone give, without cache and index: the unspecific explanation
-- for a redirect without a scheme or a host, or with a traversal in its path; none for the key of a
-- registered target without a template; and else the explanation that the targets give now. This
-- holds if each redirect explained before whose key in the cache is the same has the same URL key
-- and is split into the same parts. The cache never holds more explanations than its limit, and its
-- order lists their keys, each once.
pub explain_blocked_redirect-explanation :
    (net : Net) (codec : Codec) (digest : Bytes → Bytes) (allow_plaintext : Bool) (limit : ℕ)
    (cs : List Call) (u : Url)
    → All (IsApart net digest u) (explained_urls cs)
    → let s = calls net codec digest cs (new_state allow_plaintext limit) in
      ((explain_blocked_redirect net digest s.registry u s.cache).0 ≡ explanation net s.registry u)
      × IsBounded s.cache
explain_blocked_redirect-explanation net codec digest allow_plaintext limit cs u apart =
    let s = calls net codec digest cs (new_state allow_plaintext limit) in
    let g =
      calls-IsGood net digest (IsApart net digest u) codec cs (new_state allow_plaintext limit)
        apart (new-IsGood net digest (IsApart net digest u) allow_plaintext limit) in
    (explain_blocked_redirect_fresh net digest s.registry u s.cache g.0 g.1, g.1.0)
