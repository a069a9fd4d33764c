-- ===== src/Harpoon/Redirect/Faithful.antt =====
-- Each explanation that the cache keeps is the one that the registry gives now, to a redirect that
-- was explained before: pkg/runtimeharpoon/registry.go.
use tunnel_client.Base.{
  ◌≡◌, refl, ap, sym, subst, ◌∙◌, ℕ, Bool, true, false, not, ◌||◌, Option, none, some, List, [],
  ◌∷◌, ◌++◌, ltb, Bytes, bytes_eq, bytes_eq_iff, is_empty, length, is_some, Bool-cases, inl, inr,
  arith, All, if◌then◌else◌,
}
use tunnel_client.Harpoon.Urls.{Url, Net, has_scheme_and_host, normalized_url_key, has_traversal}
use tunnel_client.Harpoon.Metadata.{holds_text}
use tunnel_client.Harpoon.Target.{Target, Codec}
use tunnel_client.Harpoon.Registry.{Registry, Registration, registered, refused, register_target}
use tunnel_client.Harpoon.Registry.Keys.{IsIndexed, admitted-IsIndexed}
use tunnel_client.Harpoon.Registry.Admitted.{register_target-Admission}
use tunnel_client.Harpoon.Redirect.{
  RedirectMismatchDetails, Entry, ExplainCache, cached, without, evict, effective_limit,
  store_redirect_explanation, redirect_explain_cache_key, explain_key, explain_blocked_redirect,
  from_cache_or, clear_explain_cache, made_room, explain_from_targets,
}
use tunnel_client.Harpoon.Redirect.Cache.{
  IsBounded, cached-without_other, cached-without_self, store_redirect_explanation-IsBounded,
  clear_explain_cache-IsBounded,
}
use tunnel_client.Harpoon.Redirect.Calls.{
  Call, register, explain, State, new_state, settled, call, calls,
}

-- What holds of every key that is kept and of its explanation.
abbrev pub Each : (Bytes → Entry → Type 0) → List (Bytes × Entry) → Type 0
Each P es = (k : Bytes) (e : Entry) → cached k es ≡ some e → P k e

none_not_some : (e : Entry) → none ≡ some e → ⊥
none_not_some e h = cc

some_injective : (e f : Entry) → some e ≡ some f → e ≡ f
some_injective e f h = cc

cached-without-some :
    (k j : Bytes) (es : List (Bytes × Entry)) (e : Entry)
    → cached j (without k es) ≡ some e
    → cached j es ≡ some e
cached-without-some k j es e h = elim (Bool-cases (bytes_eq j k)) [
  | inl a ↦ absurd (
      none_not_some e (
        sym (ap (λ x. cached x (without k es)) ((bytes_eq_iff j k).0 a) ∙ cached-without_self k es)
        ∙ h))
  | inr b ↦ sym (cached-without_other k j es b) ∙ h
]

cached-evict-some :
    (limit : ℕ) (order : List Bytes) (j : Bytes) (es : List (Bytes × Entry)) (e : Entry)
    → cached j (evict limit order es).1 ≡ some e
    → cached j es ≡ some e
unfolding evict
cached-evict-some limit [] j es e h = h
cached-evict-some limit (k ∷ ks) j es e h = elim (Bool-cases (ltb limit (length (k ∷ ks)))) [
  | inl a ↦ cached-without-some k j es e (cached-evict-some limit ks j (without k es) e (rw a at h))
  | inr b ↦ rw b at h
]

cached-made_room-some :
    (k j : Bytes) (c : ExplainCache) (b : Bool) (e : Entry)
    → cached j (made_room k c b).entries ≡ some e
    → cached j c.entries ≡ some e
unfolding made_room
cached-made_room-some k j c true e h = h
cached-made_room-some k j c false e h =
    cached-evict-some (effective_limit c) (c.order ++ (k ∷ [])) j c.entries e h

put-Each :
    (P : Bytes → Entry → Type 0) (k : Bytes) (e : Entry) (es : List (Bytes × Entry))
    → Each P es
    → P k e
    → Each P ((k, e) ∷ without k es)
put-Each P k e es g p j x h = elim (Bool-cases (bytes_eq j k)) [
  | inl a ↦
      subst (λ i. P i x) (sym ((bytes_eq_iff j k).0 a))
        (subst (P k) (some_injective e x (rw a at h)) p)
  | inr b ↦ g j x (cached-without-some k j es x (rw b at h))
]

store-Each :
    (P : Bytes → Entry → Type 0) (k : Bytes) (e : Entry) (c : ExplainCache)
    → Each P c.entries
    → P k e
    → Each P (store_redirect_explanation k e c).entries
unfolding store_redirect_explanation
store-Each P k e c g p = elim (Bool-cases (is_empty k)) [
  | inl a ↦ rw a g
  | inr b ↦ rw b (
      put-Each P k e (made_room k c (is_some (cached k c.entries))).entries
        (λ j x h. g j x (cached-made_room-some k j c _ x h)) p)
]

-- The explanation of a redirect with the key, found without the cache.
abbrev pub fresh : Net → Registry → Url → Bytes → Entry
fresh net r u k =
    if holds_text k r.target_url_keys then none else some (explain_from_targets net r u)

-- A kept explanation is the one of a redirect for which `Q` holds.
abbrev pub Backs :
    Net → (digest : Bytes → Bytes) → (Url → Type 0) → Registry → Bytes → Entry → Type 0
Backs net digest Q r k e =
    (v : Url) × Q v
    × (i : Bytes) × (normalized_url_key net v ≡ some i)
    × (redirect_explain_cache_key digest i ≡ k)
    × (e ≡ fresh net r v i)

abbrev pub IsFaithful :
    Net → (digest : Bytes → Bytes) → (Url → Type 0) → Registry → ExplainCache → Type 0
IsFaithful net digest Q r c = IsBounded c × Each (Backs net digest Q r) c.entries

-- The redirects that the calls explain.
abbrev pub explained_urls : List Call → List Url
explained_urls [] = []
explained_urls (register t ∷ cs) = explained_urls cs
explained_urls (explain u ∷ cs) = u ∷ explained_urls cs

abbrev pub IsGood : Net → (digest : Bytes → Bytes) → (Url → Type 0) → State → Type 0
IsGood net digest Q s = IsIndexed net s.registry × IsFaithful net digest Q s.registry s.cache

module _ (net : Net) (digest : Bytes → Bytes) (Q : Url → Type 0) where
  store-IsFaithful :
      (r : Registry) (k : Bytes) (e : Entry) (c : ExplainCache)
      → IsFaithful net digest Q r c
      → Backs net digest Q r k e
      → IsFaithful net digest Q r (store_redirect_explanation k e c)
  store-IsFaithful r k e c f b =
      (store_redirect_explanation-IsBounded k e c f.0, store-Each _ k e c f.1 b)

  from_cache_or-IsFaithful :
      (r : Registry) (k : Bytes) (o : Option Entry) (d : RedirectMismatchDetails) (c : ExplainCache)
      → IsFaithful net digest Q r c
      → Backs net digest Q r k (some d)
      → IsFaithful net digest Q r (from_cache_or k o d c).1
  unfolding from_cache_or
  from_cache_or-IsFaithful r k (some e) d c f b = f
  from_cache_or-IsFaithful r k none d c f b = store-IsFaithful r k (some d) c f b

  explain_key-IsFaithful :
      (r : Registry) (u : Url) (o : Option Bytes) (c : ExplainCache)
      → Q u
      → normalized_url_key net u ≡ o
      → IsFaithful net digest Q r c
      → IsFaithful net digest Q r (explain_key net digest r u o c).1
  unfolding explain_key
  explain_key-IsFaithful r u none c q n f = f
  explain_key-IsFaithful r u (some k) c q n f = elim (Bool-cases (holds_text k r.target_url_keys)) [
    | inl a ↦ rw a (store-IsFaithful r _ none c f (u, q, k, n, refl, rw a refl))
    | inr b ↦ rw b (
        from_cache_or-IsFaithful r _ _ (explain_from_targets net r u) c f
          (u, q, k, n, refl, rw b refl))
  ]

  explain-IsFaithful :
      (r : Registry) (u : Url) (c : ExplainCache)
      → Q u
      → IsFaithful net digest Q r c
      → IsFaithful net digest Q r (explain_blocked_redirect net digest r u c).1
  unfolding explain_blocked_redirect
  explain-IsFaithful r u c q f =
      elim (Bool-cases (not (has_scheme_and_host u) || has_traversal u.path)) [
        | inl a ↦ rw a f
        | inr b ↦ rw b (explain_key-IsFaithful r u _ c q refl f)
      ]

  settled-IsGood :
      (codec : Codec) (t : Target) (s : State) (x : Registration)
      → register_target net codec t s.registry ≡ x
      → IsGood net digest Q s
      → IsGood net digest Q (settled s x)
  unfolding clear_explain_cache settled
  settled-IsGood codec t s (refused e) h g = g
  settled-IsGood codec t s (registered r) h g =
      let a = register_target-Admission net codec t s.registry r h in
      (
        subst (IsIndexed net) (sym a.result)
            (admitted-IsIndexed net t a.template a.raw a.bytes s.registry a.whole g.0),
        (clear_explain_cache-IsBounded s.cache, λ k e n. absurd (none_not_some e n)),
      )

  pub calls-IsGood :
      (codec : Codec) (cs : List Call) (s : State)
      → All Q (explained_urls cs)
      → IsGood net digest Q s
      → IsGood net digest Q (calls net codec digest cs s)
  unfolding calls call
  calls-IsGood codec [] s q g = g
  calls-IsGood codec (register t ∷ cs) s q g =
      calls-IsGood codec cs _ q (settled-IsGood codec t s _ refl g)
  calls-IsGood codec (explain u ∷ cs) s q g =
      calls-IsGood codec cs _ q.1 (g.0, explain-IsFaithful s.registry u s.cache q.0 g.1)

  pub new-IsGood :
      (allow_plaintext : Bool) (limit : ℕ) → IsGood net digest Q (new_state allow_plaintext limit)
  unfolding effective_limit
  new-IsGood allow_plaintext limit =
      (λ k. refl, ((tt, λ k. refl, omega arith), λ k e n. absurd (none_not_some e n)))
