-- ===== src/Harpoon/Lookup/OneSocket.antt =====
-- The socket of a URL does not depend on the order in which the map of targets is visited:
-- pkg/runtimeharpoon/registry.go.
use tunnel_client.Base.{
  ◌≡◌, refl, ap, sym, subst, ◌∙◌, ℕ, Bool, true, false, not, ◌&&◌, Option, none, some, List, [],
  ◌∷◌, if◌then◌else◌, Bytes, bytes_eq_iff, All, Bool-cases, inl, inr,
}
use mathlib.Core.List.{Memᴰ}
use tunnel_client.Harpoon.Urls.{
  Url, Net, normalized_url_key, has_traversal, is_https, has_scheme_and_host,
}
use tunnel_client.Harpoon.Target.{Target, Codec}
use tunnel_client.Harpoon.Registry.{Registry, exact_key, is_key, register_each, empty_registry}
use tunnel_client.Harpoon.Registry.Keys.{is_key-some}
use tunnel_client.Harpoon.Registry.Compatible.{AreCompatible, agrees}
use tunnel_client.Harpoon.Registry.Sound.{register_each-IsSound}
use tunnel_client.Harpoon.Lookup.{first_with_key, with_key_of, target_for_url}

some_injective : (t s : Target) → some t ≡ some s → t ≡ s
some_injective t s h = cc

-- The first entry with the key is one of the entries, and has the key.
first_with_key-found :
    (net : Net) (k : Bytes) (visits : List (Bytes × Target)) (t : Target)
    → first_with_key net k visits ≡ some t
    → (l : Bytes) × Memᴰ (l, t) visits × (exact_key net t ≡ some k)
first_with_key-found net k [] t h = cc
first_with_key-found net k ((l, s) ∷ ts) t h = elim (Bool-cases (is_key k (exact_key net s))) [
  | inl a ↦
      let e = some_injective s t (rw a at h) in
      (l, Memᴰ.head (ap (λ x. (l, x)) (sym e)), ap (exact_key net) (sym e) ∙ is_key-some k _ a)
  | inr b ↦ let f = first_with_key-found net k ts t (rw b at h) in (f.0, Memᴰ.tail f.1, f.2)
]

All-member : {A : Type 0} (P : A → Type 0) (xs : List A) (x : A) → All P xs → Memᴰ x xs → P x
All-member P [] x a m = elim m [ ]
All-member P (y ∷ ys) x a (Memᴰ.head e) = subst P (sym e) a.0
All-member P (y ∷ ys) x a (Memᴰ.tail m) = All-member P ys x a.1 m

and_right : (a b : Bool) → (a && b) ≡ true → b ≡ true
and_right true b h = h
and_right false b h = cc

-- Two targets that agree and have one key have one socket.
agrees-one_socket :
    (net : Net) (k : Bytes) (t s : Target)
    → agrees net t s ≡ true
    → exact_key net t ≡ some k
    → exact_key net s ≡ some k
    → s.unix_socket_path ≡ t.unix_socket_path
agrees-one_socket net k t s a e f =
    (bytes_eq_iff s.unix_socket_path t.unix_socket_path).0
      (rw (e, f, (bytes_eq_iff k k).1 refl) at a)

AreCompatible-one_socket :
    (net : Net) (k : Bytes) (ts : List (Bytes × Target)) (e f : Bytes × Target)
    → AreCompatible net ts
    → Memᴰ e ts
    → Memᴰ f ts
    → exact_key net e.1 ≡ some k
    → exact_key net f.1 ≡ some k
    → e.1.unix_socket_path ≡ f.1.unix_socket_path
AreCompatible-one_socket net k [] e f c m n p q = elim m [ ]
AreCompatible-one_socket net k ((l, t) ∷ ts) e f c (Memᴰ.head m) (Memᴰ.head n) p q =
    ap (λ x. x.1.unix_socket_path) (m ∙ sym n)
AreCompatible-one_socket net k ((l, t) ∷ ts) e f c (Memᴰ.head m) (Memᴰ.tail n) p q =
    ap (λ x. x.1.unix_socket_path) m
    ∙ sym (
        agrees-one_socket net k t f.1 (and_right _ _ (All-member _ ts f c.0 n))
          (ap (λ x. exact_key net x.1) (sym m) ∙ p) q)
AreCompatible-one_socket net k ((l, t) ∷ ts) e f c (Memᴰ.tail m) (Memᴰ.head n) p q =
    agrees-one_socket net k t e.1 (and_right _ _ (All-member _ ts e c.0 m))
      (ap (λ x. exact_key net x.1) (sym n) ∙ q) p
    ∙ sym (ap (λ x. x.1.unix_socket_path) n)
AreCompatible-one_socket net k ((l, t) ∷ ts) e f c (Memᴰ.tail m) (Memᴰ.tail n) p q =
    AreCompatible-one_socket net k ts e f c.1 m n p q

with_key_of-found :
    (net : Net) (o : Option Bytes) (visits : List (Bytes × Target)) (t : Target)
    → with_key_of net o visits ≡ some t
    → (k : Bytes) × (o ≡ some k) × (first_with_key net k visits ≡ some t)
with_key_of-found net none visits t h = cc
with_key_of-found net (some k) visits t h = (k, refl, h)

unless_none :
    (b : Bool) (o : Option Target) (t : Target) → (if b then none else o) ≡ some t → o ≡ some t
unless_none true o t h = cc
unless_none false o t h = h

target_for_url-with_key_of :
    (net : Net) (visits : List (Bytes × Target)) (r : Registry) (u : Url) (t : Target)
    → target_for_url net visits r u ≡ some t
    → with_key_of net (normalized_url_key net u) visits ≡ some t
unfolding target_for_url
target_for_url-with_key_of net visits r u t h = unless_none (has_traversal u.path) _ t (
    unless_none (not r.allow_plaintext && not (is_https u)) _ t
      (unless_none (not (has_scheme_and_host u)) _ t h))

-- In a registry of whatever targets were offered, a URL that `TargetForURL` finds a target for, in
-- whatever order it visits the entries of the map, gets the socket of every registered target whose
-- exact URL has the same key.
pub target_for_url-one_socket :
    (net : Net) (codec : Codec) (allow_plaintext : Bool) (limit : ℕ) (targets : List Target)
    (visits : List (Bytes × Target)) (u : Url) (t : Target) (other : Bytes × Target)
    → ((e : Bytes × Target)
        → Memᴰ e visits
        → Memᴰ e (register_each net codec targets (empty_registry allow_plaintext limit)).targets)
    → target_for_url net visits
        (register_each net codec targets (empty_registry allow_plaintext limit))
        u
      ≡ some t
    → Memᴰ other (register_each net codec targets (empty_registry allow_plaintext limit)).targets
    → exact_key net other.1 ≡ normalized_url_key net u
    → t.unix_socket_path ≡ other.1.unix_socket_path
target_for_url-one_socket net codec allow_plaintext limit targets visits u t other v h m e =
    let r = register_each net codec targets (empty_registry allow_plaintext limit) in
    let k = with_key_of-found net _ visits t (target_for_url-with_key_of net visits r u t h) in
    let f = first_with_key-found net k.0 visits t k.2 in
    AreCompatible-one_socket net k.0 r.targets (f.0, t) other
      (register_each-IsSound net codec allow_plaintext limit targets).1 (v (f.0, t) f.1) m f.2
      (e ∙ k.1)
