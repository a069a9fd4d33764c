-- ===== src/Harpoon/Registry/Keys.antt =====
-- The keys of exact targets: `normalizedURLKey` in pkg/runtimeharpoon/registry.go, and the index of
-- keys beside the targets.
use tunnel_client.Base.{
  ◌≡◌, refl, ap, sym, ◌∙◌, ℕ, Bool, true, false, ◌||◌, Option, none, some, List, [], ◌∷◌, Bytes,
  bytes_eq_iff, is_empty, to_lower, lower_byte, arith,
}
use tunnel_client.Harpoon.Urls.{
  Url, Net, has_scheme_and_host, normalize_url, lowered, normalized_url_key,
}
use tunnel_client.Harpoon.Metadata.{holds_text}
use tunnel_client.Harpoon.Target.{TargetTemplate, Target}
use tunnel_client.Harpoon.Registry.{exact_key, is_key, clean_target, admitted, Registry}

lower_byte_twice : (c : ℕ) → lower_byte (lower_byte c) ≡ lower_byte c
lower_byte_twice c = ground arith

pub to_lower_twice : (s : Bytes) → to_lower (to_lower s) ≡ to_lower s
unfolding to_lower
to_lower_twice [] = refl
to_lower_twice (c ∷ s) = rw (lower_byte_twice c, to_lower_twice s) refl

is_empty-to_lower : (s : Bytes) → is_empty (to_lower s) ≡ is_empty s
unfolding to_lower
is_empty-to_lower [] = refl
is_empty-to_lower (c ∷ s) = refl

pub lowered_twice : (u : Url) → lowered (lowered u) ≡ lowered u
lowered_twice u = rw (to_lower_twice u.scheme, to_lower_twice u.host) refl

pub has_scheme_and_host-lowered :
    (u : Url) → has_scheme_and_host (lowered u) ≡ has_scheme_and_host u
has_scheme_and_host-lowered u = rw (is_empty-to_lower u.scheme, is_empty-to_lower u.host) refl

pub normalized_url_key-some :
    (net : Net) (u : Url)
    → has_scheme_and_host u ≡ true
    → normalized_url_key net u ≡ some (net.string (lowered u))
unfolding normalized_url_key normalize_url
normalized_url_key-some net u h = rw (h, has_scheme_and_host-lowered u, h) refl

pub normalized_url_key-lowered :
    (net : Net) (u : Url)
    → has_scheme_and_host u ≡ true
    → normalized_url_key net (lowered u) ≡ some (net.string (lowered u))
normalized_url_key-lowered net u h =
    normalized_url_key-some net (lowered u) (has_scheme_and_host-lowered u ∙ h)
    ∙ ap (λ v. some (net.string v)) (lowered_twice u)

-- Some exact target has the key.
abbrev pub has_exact_key : Net → Bytes → List (Bytes × Target) → Bool
has_exact_key net k [] = false
has_exact_key net k ((l, t) ∷ ts) = is_key k (exact_key net t) || has_exact_key net k ts

-- A key that is the one looked for.
pub is_key-some : (k : Bytes) (o : Option Bytes) → is_key k o ≡ true → o ≡ some k
is_key-some k none h = cc
is_key-some k (some j) h = ap some (sym ((bytes_eq_iff k j).0 h))

-- The index has the keys of the exact targets and no others.
abbrev pub IsIndexed : Net → Registry → Type 0
IsIndexed net r = (k : Bytes) → holds_text k r.target_url_keys ≡ has_exact_key net k r.targets

pub exact_key-clean :
    (net : Net) (target : Target) (raw : Url)
    → has_scheme_and_host raw ≡ true
    → exact_key net (clean_target target none raw (lowered raw)) ≡ some (net.string (lowered raw))
unfolding exact_key clean_target
exact_key-clean net target raw h = normalized_url_key-lowered net raw h

pub admitted-IsIndexed :
    (net : Net) (target : Target) (template : Option TargetTemplate) (raw : Url) (bytes : ℕ)
    (r : Registry)
    → has_scheme_and_host raw ≡ true
    → IsIndexed net r
    → IsIndexed net
        (admitted net (clean_target target template raw (lowered raw)) (lowered raw) bytes r)
unfolding admitted clean_target exact_key
admitted-IsIndexed net target none raw bytes r h i k =
    rw (normalized_url_key-lowered net raw h, i k) refl
admitted-IsIndexed net target (some t) raw bytes r h i k = i k
