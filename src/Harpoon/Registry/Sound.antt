-- ===== src/Harpoon/Registry/Sound.antt =====
-- What holds of a registry whatever was registered: pkg/runtimeharpoon/registry.go.
use tunnel_client.Base.{
  ◌≡◌, refl, ap, sym, subst, ◌∙◌, ℕ, suc, ◌+◌, ◌≤◌, min, to_lower, codes, equal_fold, bytes_eq_iff,
  Bool, true, false, not, ◌&&◌, ◌||◌, Option, none, some, List, [], ◌∷◌, ltb, leb, Bytes, bytes_eq,
  length, All, arith,
}
use tunnel_client.Harpoon.Urls.{Url, Net, is_https, lowered, has_traversal}
use tunnel_client.Harpoon.Target.{
  TargetTemplate, is_loopback_http, Target, Codec, max_template_catalog_bytes,
  target_discovery_bytes, matches_label_pattern, has_rich_header_rules,
}
use tunnel_client.Harpoon.Registry.{
  clean_target, admitted, Registry, registered, refused, Registration, register_target,
  register_each, kept, empty_registry,
}
use tunnel_client.Harpoon.Registry.Keys.{to_lower_twice, IsIndexed, admitted-IsIndexed}
use tunnel_client.Harpoon.Registry.Admitted.{Admission, register_target-Admission}
use tunnel_client.Harpoon.Registry.Compatible.{AreCompatible, clean-agrees}

abbrev pub is_secure_url : Bool → Option TargetTemplate → Option Url → Bool
is_secure_url allow_plaintext template none = false
is_secure_url allow_plaintext template (some u) =
    not (has_traversal u.path) && (allow_plaintext || (is_https u || is_loopback_http template))

-- An entry under a valid label that is its own, with a URL that is straight and as secure as asked.
abbrev pub is_valid_entry : Bool → Bytes × Target → Bool
is_valid_entry allow_plaintext (l, t) =
    matches_label_pattern l
    && (bytes_eq l t.label && is_secure_url allow_plaintext t.template t.base_url)

abbrev pub size_or_0 : Option ℕ → ℕ
size_or_0 none = 0
size_or_0 (some n) = n

-- The discovery of all targets together.
abbrev pub total_bytes : Codec → List (Bytes × Target) → ℕ
total_bytes codec [] = 0
total_bytes codec ((l, t) ∷ ts) = size_or_0 (target_discovery_bytes codec t) + total_bytes codec ts

abbrev pub some_rich : List (Bytes × Target) → Bool
some_rich [] = false
some_rich ((l, t) ∷ ts) = has_rich_header_rules t.template || some_rich ts

abbrev pub IsSound : Net → Codec → Registry → Type 0
IsSound net codec r =
    All (λ e. is_valid_entry r.allow_plaintext e ≡ true) r.targets
    × AreCompatible net r.targets
    × (length r.targets ≤ r.limit)
    × (min (max_template_catalog_bytes + 1) (total_bytes codec r.targets) ≡ r.discovery_bytes)
    × (r.has_rich_templates ≡ some_rich r.targets)
    × ((not r.has_rich_templates || leb (total_bytes codec r.targets) max_template_catalog_bytes)
        ≡ true)

leb-false : (a b : ℕ) → leb a b ≡ false → suc b ≤ a
leb-false a b h = ground arith

and_true : (a b : Bool) → a ≡ true → b ≡ true → (a && b) ≡ true
and_true a b h g = ground arith

secure_lem :
    (allow https loopback : Bool)
    → (not allow && (not https && not loopback)) ≡ false
    → (allow || (https || loopback)) ≡ true
secure_lem allow https loopback h = ground arith

is_https-lowered : (u : Url) → is_https (lowered u) ≡ is_https u
unfolding is_https equal_fold
is_https-lowered u = ap (λ s. bytes_eq s (to_lower (codes "https"))) (to_lower_twice u.scheme)

clean-is_valid :
    (net : Net) (codec : Codec) (target : Target) (r r' : Registry)
    (a : Admission net codec target r r')
    → is_valid_entry r.allow_plaintext (
      (clean_target target a.template a.raw (lowered a.raw)).label,
      clean_target target a.template a.raw (lowered a.raw),
    )
      ≡ true
unfolding clean_target
clean-is_valid net codec target r r' a = and_true _ _ a.label (
    and_true _ _ ((bytes_eq_iff _ _).1 refl) (
      and_true _ _ (ap not a.straight) (
        ap (λ b. r.allow_plaintext || (b || is_loopback_http a.template)) (is_https-lowered a.raw)
        ∙ secure_lem r.allow_plaintext (is_https a.raw) (is_loopback_http a.template) a.plain)))

budget_lem :
    (rich more : Bool) (total bytes limit disc : ℕ)
    → min (limit + 1) total ≡ disc
    → ((rich || more) && ltb limit (bytes + disc)) ≡ false
    → (not (rich || more) || leb (bytes + total) limit) ≡ true
budget_lem rich more total bytes limit disc m h = ground arith

account_lem :
    (total bytes limit disc : ℕ)
    → min (limit + 1) total ≡ disc
    → min (limit + 1) (bytes + total) ≡ min (limit + 1) (disc + bytes)
account_lem total bytes limit disc m = omega arith

or_comm : (a b : Bool) → (a || b) ≡ (b || a)
or_comm a b = ground arith

admitted-IsSound :
    (net : Net) (codec : Codec) (target : Target) (r r' : Registry)
    (a : Admission net codec target r r')
    → IsIndexed net r
    → IsSound net codec r
    → IsSound net codec (
        admitted net
          (clean_target target a.template a.raw (lowered a.raw))
          (lowered a.raw)
          a.bytes
          r)
unfolding admitted
admitted-IsSound net codec target r r' a i s =
    let clean = clean_target target a.template a.raw (lowered a.raw) in
    let rich = has_rich_header_rules clean.template in
    let total = total_bytes codec r.targets in
    (
      (clean-is_valid net codec target r r' a, s.0),
      (clean-agrees net target a.template a.raw r a.whole i a.fresh a.transport, s.1),
      leb-false r.limit (length r.targets) a.room,
      rw a.size (account_lem total a.bytes max_template_catalog_bytes r.discovery_bytes s.3),
      or_comm r.has_rich_templates rich ∙ ap (λ b. rich || b) s.4,
      rw a.size (
          budget_lem r.has_rich_templates rich total a.bytes max_template_catalog_bytes
            r.discovery_bytes s.3 a.budget),
    )

-- A step keeps the index and all else that holds.
abbrev pub IsKept : Net → Codec → Registry → Type 0
IsKept net codec r = IsIndexed net r × IsSound net codec r

pub kept-IsKept :
    (net : Net) (codec : Codec) (target : Target) (r : Registry) (e : Registration)
    → register_target net codec target r ≡ e
    → IsKept net codec r
    → IsKept net codec (kept r e)
kept-IsKept net codec target r (refused e) h s = s
kept-IsKept net codec target r (registered r') h s =
    let a = register_target-Admission net codec target r r' h in
    subst (IsKept net codec) (sym a.result) (
      admitted-IsIndexed net target a.template a.raw a.bytes r a.whole s.0,
      admitted-IsSound net codec target r r' a s.0 s.1,
    )

pub register_each-IsKept :
    (net : Net) (codec : Codec) (targets : List Target) (r : Registry)
    → IsIndexed net r × IsSound net codec r
    → IsIndexed net (register_each net codec targets r)
      × IsSound net codec (register_each net codec targets r)
unfolding register_each
register_each-IsKept net codec [] r s = s
register_each-IsKept net codec (t ∷ ts) r s =
    register_each-IsKept net codec ts (kept r (register_target net codec t r))
      (kept-IsKept net codec t r _ refl s)

pub empty-IsKept :
    (net : Net) (codec : Codec) (allow_plaintext : Bool) (limit : ℕ)
    → IsIndexed net (empty_registry allow_plaintext limit)
      × IsSound net codec (empty_registry allow_plaintext limit)
empty-IsKept net codec allow_plaintext limit = (λ k. refl, (tt, tt, omega arith, refl, refl, refl))

-- Whatever targets a registry is offered, those it holds have valid labels of their own, no two the
-- same, straight paths, and https unless plaintext or a loopback template is allowed; targets with
-- one exact URL have one socket; their number is at most the limit; the account of discovery is
-- their sizes together, saturated at one above the budget, and within the budget once some target
-- has a structured header rule.
pub register_each-IsSound :
    (net : Net) (codec : Codec) (allow_plaintext : Bool) (limit : ℕ) (targets : List Target)
    → IsSound net codec (register_each net codec targets (empty_registry allow_plaintext limit))
register_each-IsSound net codec allow_plaintext limit targets =
    (register_each-IsKept net codec targets _ (empty-IsKept net codec allow_plaintext limit)).1
