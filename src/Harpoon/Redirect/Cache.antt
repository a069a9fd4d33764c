-- ===== src/Harpoon/Redirect/Cache.antt =====
-- The cache of explanations of redirects: pkg/runtimeharpoon/registry.go.
use tunnel_client.Base.{
  ◌≡◌, refl, ap, sym, ◌∙◌, ℕ, ◌≤◌, Bool, true, false, ◌||◌, none, List, [], ◌∷◌, ◌++◌, ltb, Bytes,
  bytes_eq, bytes_eq_iff, bytes_eq_comm, is_empty, length, is_some, arith, Bool-cases, inl, inr,
}
use tunnel_client.Harpoon.Metadata.{holds_text}
use tunnel_client.Harpoon.Redirect.{
  Entry, ExplainCache, effective_limit, clear_explain_cache, cached, without, evict,
  store_redirect_explanation, made_room,
}

abbrev pub AreDistinct : List Bytes → Type 0
AreDistinct [] = Unit
AreDistinct (k ∷ ks) = (holds_text k ks ≡ false) × AreDistinct ks

-- The order lists the keys of the entries, each once, and at most as many as the limit.
abbrev pub IsBounded : ExplainCache → Type 0
IsBounded c =
    AreDistinct c.order
    × ((k : Bytes) → holds_text k c.order ≡ is_some (cached k c.entries))
    × (length c.order ≤ effective_limit c)

pub cached-without_self : (k : Bytes) (es : List (Bytes × Entry)) → cached k (without k es) ≡ none
cached-without_self k [] = refl
cached-without_self k ((j, e) ∷ es) = elim (Bool-cases (bytes_eq k j)) [
  | inl a ↦ rw a (cached-without_self k es)
  | inr b ↦ rw (b, b) (cached-without_self k es)
]

pub cached-without_other :
    (k j : Bytes) (es : List (Bytes × Entry))
    → bytes_eq j k ≡ false
    → cached j (without k es) ≡ cached j es
cached-without_other k j [] h = refl
cached-without_other k j ((i, e) ∷ es) h = elim (Bool-cases (bytes_eq k i)) [
  | inl a ↦
      let g : bytes_eq j i ≡ false = ap (bytes_eq j) (sym ((bytes_eq_iff k i).0 a)) ∙ h in
      rw (a, g) (cached-without_other k j es h)
  | inr b ↦ rw (b, cached-without_other k j es h) refl
]

not_longer : (a b : ℕ) → ltb a b ≡ false → b ≤ a
not_longer a b h = ground arith

length-evict :
    (limit : ℕ) (order : List Bytes) (es : List (Bytes × Entry))
    → length (evict limit order es).0 ≤ limit
unfolding evict
length-evict limit [] es = omega arith
length-evict limit (k ∷ ks) es = elim (Bool-cases (ltb limit (length (k ∷ ks)))) [
  | inl a ↦ rw a (length-evict limit ks (without k es))
  | inr b ↦ rw b (not_longer limit (length (k ∷ ks)) b)
]

AreDistinct-evict :
    (limit : ℕ) (order : List Bytes) (es : List (Bytes × Entry))
    → AreDistinct order
    → AreDistinct (evict limit order es).0
unfolding evict
AreDistinct-evict limit [] es d = tt
AreDistinct-evict limit (k ∷ ks) es d = elim (Bool-cases (ltb limit (length (k ∷ ks)))) [
  | inl a ↦ rw a (AreDistinct-evict limit ks (without k es) d.1)
  | inr b ↦ rw b d
]

-- The order lists the keys of the entries, but perhaps for one key.
abbrev AgreeBut : Bytes → List Bytes → List (Bytes × Entry) → Type 0
AgreeBut k order es =
    (j : Bytes) → bytes_eq j k ≡ false → holds_text j order ≡ is_some (cached j es)

absent_key :
    (j k : Bytes) (ks : List Bytes)
    → bytes_eq j k ≡ true
    → holds_text k ks ≡ false
    → holds_text j ks ≡ false
absent_key j k ks e h = ap (λ x. holds_text x ks) ((bytes_eq_iff j k).0 e) ∙ h

AgreeBut-without :
    (k i : Bytes) (ks : List Bytes) (es : List (Bytes × Entry))
    → holds_text i ks ≡ false
    → AgreeBut k (i ∷ ks) es
    → AgreeBut k ks (without i es)
AgreeBut-without k i ks es d g j n = elim (Bool-cases (bytes_eq j i)) [
  | inl a ↦
      absent_key j i ks a d
      ∙ sym (
          ap (λ x. is_some (cached x (without i es))) ((bytes_eq_iff j i).0 a)
          ∙ ap is_some (cached-without_self i es))
  | inr b ↦ (rw b at (g j n)) ∙ sym (ap is_some (cached-without_other i j es b))
]

AgreeBut-evict :
    (limit : ℕ) (k : Bytes) (order : List Bytes) (es : List (Bytes × Entry))
    → AreDistinct order
    → AgreeBut k order es
    → AgreeBut k (evict limit order es).0 (evict limit order es).1
unfolding evict
AgreeBut-evict limit k [] es d g = g
AgreeBut-evict limit k (i ∷ ks) es d g = elim (Bool-cases (ltb limit (length (i ∷ ks)))) [
  | inl a ↦ rw a (AgreeBut-evict limit k ks (without i es) d.1 (AgreeBut-without k i ks es d.0 g))
  | inr b ↦ rw b g
]

or_right : (a b : Bool) → b ≡ true → (a || b) ≡ true
or_right true b h = refl
or_right false b h = h

or_false : (a b : Bool) → (a || b) ≡ false → (a ≡ false) × (b ≡ false)
or_false a b h = ground arith

holds_last : (k : Bytes) (ks : List Bytes) → holds_text k (ks ++ (k ∷ [])) ≡ true
holds_last k [] = rw ((bytes_eq_iff k k).1 refl) refl
holds_last k (i ∷ ks) = or_right (bytes_eq k i) _ (holds_last k ks)

at_least_1 : (limit : ℕ) → 1 ≤ limit → ltb limit 1 ≡ false
at_least_1 limit h = ground arith

-- The last key of the order is not evicted.
evict-last :
    (limit : ℕ) (k : Bytes) (ks : List Bytes) (es : List (Bytes × Entry))
    → 1 ≤ limit
    → holds_text k (evict limit (ks ++ (k ∷ [])) es).0 ≡ true
unfolding evict
evict-last limit k [] es h = rw (at_least_1 limit h) (holds_last k [])
evict-last limit k (i ∷ ks) es h = elim (Bool-cases (ltb limit (length (i ∷ (ks ++ (k ∷ [])))))) [
  | inl a ↦ rw a (evict-last limit k ks (without i es) h)
  | inr b ↦ rw b (holds_last k (i ∷ ks))
]

holds_before :
    (j k : Bytes) (ks : List Bytes)
    → bytes_eq j k ≡ false
    → holds_text j (ks ++ (k ∷ [])) ≡ holds_text j ks
holds_before j k [] h = rw h refl
holds_before j k (i ∷ ks) h = rw (holds_before j k ks h) refl

not_appended :
    (i k : Bytes) (ks : List Bytes)
    → holds_text i ks ≡ false
    → bytes_eq k i ≡ false
    → holds_text i (ks ++ (k ∷ [])) ≡ false
not_appended i k ks h n = holds_before i k ks (bytes_eq_comm i k ∙ n) ∙ h

AreDistinct-append :
    (k : Bytes) (ks : List Bytes)
    → holds_text k ks ≡ false
    → AreDistinct ks
    → AreDistinct (ks ++ (k ∷ []))
AreDistinct-append k [] h d = (refl, tt)
AreDistinct-append k (i ∷ ks) h d =
    let a = or_false (bytes_eq k i) _ h in
    (not_appended i k ks d.0 a.0, AreDistinct-append k ks a.1 d.1)

effective_limit_positive : (c : ExplainCache) → 1 ≤ effective_limit c
unfolding effective_limit
effective_limit_positive c = ground arith

-- The entries after a key is put in are listed by the order, when all but that key were.
put-agrees :
    (k : Bytes) (e : Entry) (order : List Bytes) (es : List (Bytes × Entry)) (j : Bytes)
    → holds_text k order ≡ true
    → AgreeBut k order es
    → holds_text j order ≡ is_some (cached j ((k, e) ∷ without k es))
put-agrees k e order es j h g = elim (Bool-cases (bytes_eq j k)) [
  | inl a ↦ rw a (ap (λ x. holds_text x order) ((bytes_eq_iff j k).0 a) ∙ h)
  | inr b ↦ rw b (g j b ∙ sym (ap is_some (cached-without_other k j es b)))
]

put_present :
    (k : Bytes) (e : Entry) (c : ExplainCache)
    → IsBounded c
    → is_some (cached k c.entries) ≡ true
    → IsBounded (record c { entries = (k, e) ∷ without k c.entries })
unfolding effective_limit
put_present k e c b h =
    (b.0, λ j. put-agrees k e c.order c.entries j (b.1 k ∙ h) (λ i n. b.1 i), b.2)

put_new :
    (k : Bytes) (e : Entry) (c : ExplainCache)
    → IsBounded c
    → is_some (cached k c.entries) ≡ false
    → IsBounded (record c {
      entries = (k, e) ∷ without k (evict (effective_limit c) (c.order ++ (k ∷ [])) c.entries).1;
      order = (evict (effective_limit c) (c.order ++ (k ∷ [])) c.entries).0;
    })
unfolding effective_limit
put_new k e c b h =
    let order = c.order ++ (k ∷ []) in
    let distinct = AreDistinct-append k c.order (b.1 k ∙ h) b.0 in
    let agree =
      AgreeBut-evict (effective_limit c) k order c.entries distinct
        (λ j n. holds_before j k c.order n ∙ b.1 j) in
    (
      AreDistinct-evict (effective_limit c) order c.entries distinct,
      λ j.
          put-agrees k e _ (evict (effective_limit c) order c.entries).1 j
            (evict-last (effective_limit c) k c.order c.entries (effective_limit_positive c)) agree,
      length-evict (effective_limit c) order c.entries,
    )

-- A store keeps the order and the entries together, and within the limit.
pub store_redirect_explanation-IsBounded :
    (k : Bytes) (e : Entry) (c : ExplainCache)
    → IsBounded c
    → IsBounded (store_redirect_explanation k e c)
unfolding store_redirect_explanation made_room
store_redirect_explanation-IsBounded k e c b = elim (Bool-cases (is_empty k)) [
  | inl a ↦ rw a b
  | inr n ↦ elim (Bool-cases (is_some (cached k c.entries))) [
    | inl p ↦ rw (n, p) (put_present k e c b p)
    | inr q ↦ rw (n, q) (put_new k e c b q)
  ]
]

pub clear_explain_cache-IsBounded : (c : ExplainCache) → IsBounded (clear_explain_cache c)
unfolding clear_explain_cache
clear_explain_cache-IsBounded c = (tt, λ k. refl, omega arith)
