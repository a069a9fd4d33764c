-- ===== src/Harpoon/Lookup.antt =====
-- Looking up what is registered: the readers of pkg/runtimeharpoon/registry.go. `visits` has the
-- entries of the map of targets in the order in which the source's loop meets them.
pub mod Allowed
pub mod OneSocket
use tunnel_client.Base.{
  ℕ, Bool, true, false, not, ◌&&◌, ◌||◌, Option, none, some, List, [], ◌∷◌, ltb, if◌then◌else◌,
  Bytes, is_empty, trim_space, bytes_eq, length, is_some,
}
use tunnel_client.Harpoon.Urls.{
  Url, Net, is_https, has_scheme_and_host, normalized_url_key, has_traversal,
}
use tunnel_client.Harpoon.Target.{Target}
use tunnel_client.Harpoon.Registry.{exact_key, is_key, Registry}

abbrev pub first_with_key : Net → Bytes → List (Bytes × Target) → Option Target
first_with_key net k [] = none
first_with_key net k ((l, t) ∷ ts) =
    let rest = first_with_key net k ts in if is_key k (exact_key net t) then some t else rest

abbrev pub with_key_of : Net → Option Bytes → List (Bytes × Target) → Option Target
with_key_of net none visits = none
with_key_of net (some k) visits = first_with_key net k visits

unfoldable pub target_for_url :
    Net → (visits : List (Bytes × Target)) → Registry → Url → Option Target
unfolding is_https normalized_url_key has_traversal
target_for_url net visits r u =
    if not (has_scheme_and_host u)
    then none
    else (if not r.allow_plaintext && not (is_https u)
        then none
        else (if has_traversal u.path
            then none
            else with_key_of net (normalized_url_key net u) visits))

abbrev pub some_with_key : Net → Option Bytes → List (Bytes × Target) → Bool
some_with_key net none visits = false
some_with_key net (some k) [] = false
some_with_key net (some k) ((l, t) ∷ ts) =
    is_key k (exact_key net t) || some_with_key net (some k) ts

unfoldable pub allows_url : Net → (visits : List (Bytes × Target)) → Registry → Url → Bool
unfolding is_https normalized_url_key has_traversal
allows_url net visits r u =
    if not (has_scheme_and_host u)
    then false
    else (if not r.allow_plaintext && not (is_https u)
        then false
        else (if has_traversal u.path
            then false
            else some_with_key net (normalized_url_key net u) visits))

abbrev pub labelled : Bytes → List (Bytes × Target) → Option Target
labelled l [] = none
labelled l ((k, t) ∷ ts) = let rest = labelled l ts in if bytes_eq l k then some t else rest

unfoldable pub lookup : Bytes → Registry → Option Target
unfolding trim_space
lookup label r = labelled (trim_space label) r.targets

unfoldable pub count : Registry → ℕ
count r = length r.targets

abbrev exact_url_of : Option Target → Option Url
exact_url_of none = none
exact_url_of (some t) =
    if is_some t.template
    then none
    else (if is_some t.original_url then t.original_url else t.base_url)

-- The URL as it was registered, of a target that is no template.
unfoldable pub exact_url : Bytes → Registry → Option Url
unfolding lookup
exact_url label r = exact_url_of (lookup label r)

pub data ResolveError : Type 0 where
  unknown_label template_target empty_url : ResolveError

pub data Resolved : Type 0 where
  resolved_to : Url → Resolved
  not_resolved : ResolveError → Resolved

abbrev base_of : Option Url → Resolved
base_of none = not_resolved empty_url
base_of (some u) = resolved_to u

abbrev resolution_of : Option Target → Resolved
resolution_of none = not_resolved unknown_label
resolution_of (some t) =
    if is_some t.template then not_resolved template_target else base_of t.base_url

unfoldable pub resolve_label : Bytes → Registry → Resolved
unfolding lookup
resolve_label label r = resolution_of (lookup label r)

pub data Waiting : Type 0 where
  found : Target → Waiting
  waits_on : (channel : ℕ) → Waiting

abbrev waiting_of : Registry → Option Target → Waiting
waiting_of r none = waits_on r.state_ch
waiting_of r (some t) = found t

-- One turn of `WaitForTarget`: the target, or the channel that the turn waits on.
unfoldable pub wait_turn : Bytes → Registry → Waiting
unfolding trim_space
wait_turn label r = waiting_of r (labelled (trim_space label) r.targets)

-- Whether the channel of that number is closed.
abbrev pub is_closed : Registry → (channel : ℕ) → Bool
is_closed r channel = ltb channel r.state_ch
