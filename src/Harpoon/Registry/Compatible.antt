-- ===== src/Harpoon/Registry/Compatible.antt =====
-- Targets with one exact URL have one socket: pkg/runtimeharpoon/registry.go.
use tunnel_client.Base.{
  ◌≡◌, refl, ap, sym, ◌∙◌, ◌⊎◌, Bool, true, false, not, ◌&&◌, ◌||◌, Option, none, some, List, [],
  ◌∷◌, Bytes, bytes_eq, All, arith, is_some, trim_space, inl, inr,
}
use tunnel_client.Harpoon.Urls.{Url, Net, has_scheme_and_host, lowered}
use tunnel_client.Harpoon.Metadata.{holds_text}
use tunnel_client.Harpoon.Target.{TargetTemplate, Target}
use tunnel_client.Harpoon.Registry.{
  exact_key, is_key, has_other_socket, other_socket_if, has_different_transport_for_url, has_label,
  clean_target, Registry,
}
use tunnel_client.Harpoon.Registry.Keys.{
  has_exact_key, IsIndexed, exact_key-clean, normalized_url_key-lowered,
}

abbrev pub is_same_key : Option Bytes → Option Bytes → Bool
is_same_key none o = false
is_same_key (some k) o = is_key k o

-- Two targets with one exact URL have one socket.
abbrev pub agrees : Net → Target → Target → Bool
agrees net t s =
    not (is_same_key (exact_key net t) (exact_key net s))
    || bytes_eq s.unix_socket_path t.unix_socket_path

abbrev pub AreCompatible : Net → List (Bytes × Target) → Type 0
AreCompatible net [] = Unit
AreCompatible net ((l, t) ∷ ts) =
    All (λ e. (not (bytes_eq l e.0) && agrees net t e.1) ≡ true) ts × AreCompatible net ts

if_other :
    (k sk : Bool) (e : Bool) (rest : Bool)
    → ((k && not sk) || rest) ≡ false
    → e ≡ false
    → ((not e && (not k || sk)) ≡ true) × (rest ≡ false)
if_other k sk e rest h g = ground arith

or_false : (a b : Bool) → (a || b) ≡ false → (a ≡ false) × (b ≡ false)
or_false a b h = ground arith

-- Where no target of the key has another socket, all agree.
same_socket :
    (net : Net) (l k : Bytes) (t : Target) (ts : List (Bytes × Target))
    → exact_key net t ≡ some k
    → has_label l ts ≡ false
    → has_other_socket net k t.unix_socket_path ts ≡ false
    → All (λ e. (not (bytes_eq l e.0) && agrees net t e.1) ≡ true) ts
same_socket net l k t [] e d h = tt
same_socket net l k t ((m, s) ∷ ts) e d h =
    let a = or_false _ _ d in
    let b =
      if_other (is_key k (exact_key net s)) (bytes_eq s.unix_socket_path t.unix_socket_path)
        (bytes_eq l m) _ h a.0 in
    ((rw e b.0), same_socket net l k t ts e a.1 b.1)

-- Where no target has the key, all agree.
no_same_key :
    (net : Net) (l k : Bytes) (t : Target) (ts : List (Bytes × Target))
    → exact_key net t ≡ some k
    → has_label l ts ≡ false
    → has_exact_key net k ts ≡ false
    → All (λ e. (not (bytes_eq l e.0) && agrees net t e.1) ≡ true) ts
no_same_key net l k t [] e d h = tt
no_same_key net l k t ((m, s) ∷ ts) e d h =
    let a = or_false (bytes_eq l m) _ d in
    let b = or_false (is_key k (exact_key net s)) _ h in
    (rw (e, a.0, b.0) refl, no_same_key net l k t ts e a.1 b.1)

-- A target without an exact URL agrees with all.
no_key :
    (net : Net) (l : Bytes) (t : Target) (ts : List (Bytes × Target))
    → exact_key net t ≡ none
    → has_label l ts ≡ false
    → All (λ e. (not (bytes_eq l e.0) && agrees net t e.1) ≡ true) ts
no_key net l t [] e d = tt
no_key net l t ((m, s) ∷ ts) e d =
    let a = or_false (bytes_eq l m) _ d in (rw (e, a.0) refl, no_key net l t ts e a.1)

and_false : (a b : Bool) → (a && b) ≡ false → (a ≡ false) ⊎ (b ≡ false)
and_false true b h = inr h
and_false false b h = inl refl

pub clean-agrees :
    (net : Net) (target : Target) (template : Option TargetTemplate) (raw : Url) (r : Registry)
    → has_scheme_and_host raw ≡ true
    → IsIndexed net r
    → has_label (clean_target target template raw (lowered raw)).label r.targets ≡ false
    → (not (is_some (clean_target target template raw (lowered raw)).template)
        && (holds_text (net.string (lowered raw)) r.target_url_keys
            && has_different_transport_for_url net r
                (lowered raw)
                (clean_target target template raw (lowered raw)).unix_socket_path))
      ≡ false
    → All
        (λ e.
          (not (bytes_eq (clean_target target template raw (lowered raw)).label e.0)
            && agrees net (clean_target target template raw (lowered raw)) e.1)
          ≡ true)
        r.targets
unfolding clean_target has_different_transport_for_url exact_key
clean-agrees net target (some m) raw r w i d h =
    no_key net _ (clean_target target (some m) raw (lowered raw)) r.targets refl d
clean-agrees net target none raw r w i d h = elim (and_false _ _ h) [
  | inl a ↦
      no_same_key net _ _ (clean_target target none raw (lowered raw)) r.targets
        (exact_key-clean net target raw w) d (sym (i _) ∙ a)
  | inr b ↦
      same_socket net _ _ (clean_target target none raw (lowered raw)) r.targets
        (exact_key-clean net target raw w) d
        (sym (
            ap (λ o. other_socket_if net o (trim_space target.unix_socket_path) r.targets)
              (normalized_url_key-lowered net raw w))
          ∙ b)
]
