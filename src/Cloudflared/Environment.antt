-- ===== src/Cloudflared/Environment.antt =====
-- The environment of the child.
use tunnel_client.Base.{
  ◌≡◌, refl, ap, ◌∙◌, sym, Bool, true, false, not, ◌&&◌, Option, none, some, List, [], ◌∷◌, ◌++◌,
  if◌then◌else◌, arith, Bytes, codes, bytes_eq, equal_fold, is_empty, inl, inr, ◌⊎◌, bytes_eq_iff,
  to_lower, append-nil, Bool-cases,
}
use tunnel_client.Cloudflared.{cut_at_equals, is_replaced, kept_entries, cloudflared_environment}

abbrev add_value : Bytes → Option (Bytes × Bytes) → List Bytes → List Bytes
add_value name none vs = vs
add_value name (some (key, value)) vs = if equal_fold key name then value ∷ vs else vs

-- The values of a variable in an environment, its name in any case.
unfoldable pub values_of : Bytes → List Bytes → List Bytes
unfolding cut_at_equals
values_of name [] = []
values_of name (e ∷ es) = let rest = values_of name es in add_value name (cut_at_equals e) rest

-- The values that are not the token.
abbrev pub without : Bytes → List Bytes → List Bytes
without token [] = []
without token (v ∷ vs) =
    let rest = without token vs in
    if not (is_empty token) && bytes_eq v token then rest else v ∷ rest

add_value-append :
    (name : Bytes) (o : Option (Bytes × Bytes)) (vs ws : List Bytes)
    → add_value name o (vs ++ ws) ≡ add_value name o vs ++ ws
add_value-append name none vs ws = refl
add_value-append name (some (key, value)) vs ws = ground arith

values_of-append :
    (name : Bytes) (xs ys : List Bytes)
    → values_of name (xs ++ ys) ≡ values_of name xs ++ values_of name ys
unfolding values_of
values_of-append name [] ys = refl
values_of-append name (x ∷ xs) ys =
    ap (add_value name (cut_at_equals x)) (values_of-append name xs ys)
    ∙ add_value-append name (cut_at_equals x) (values_of name xs) (values_of name ys)

equal_fold_both :
    (key a b : Bytes) → equal_fold key a ≡ true → equal_fold key b ≡ true → equal_fold a b ≡ true
unfolding equal_fold
equal_fold_both key a b h k = (bytes_eq_iff (to_lower a) (to_lower b)).1 (
    sym ((bytes_eq_iff (to_lower key) (to_lower a)).0 h)
    ∙ (bytes_eq_iff (to_lower key) (to_lower b)).0 k)

-- A variable that the supervisor does not set itself.
abbrev pub IsOther : Bytes → Type 0
IsOther name =
    (equal_fold name (codes "TUNNEL_TOKEN") ≡ false)
    × (equal_fold name (codes "TUNNEL_MANAGEMENT_DIAGNOSTICS") ≡ false)

kept_value :
    (token name : Bytes) (o : Option (Bytes × Bytes)) (vs : List Bytes)
    → IsOther name
    → (if is_replaced token o then without token vs else add_value name o (without token vs))
      ≡ without token (add_value name o vs)
kept_value token name none vs h = refl
kept_value token name (some (key, value)) vs h = ground (
  arith,
  equal_fold_both key name (codes "TUNNEL_TOKEN"),
  equal_fold_both key name (codes "TUNNEL_MANAGEMENT_DIAGNOSTICS"),
)

values_of-kept_step :
    (token name : Bytes) (e : Bytes) (r : Bool) (es : List Bytes)
    → values_of name (if r then es else e ∷ es)
      ≡ (if r then values_of name es else add_value name (cut_at_equals e) (values_of name es))
unfolding values_of
values_of-kept_step token name e true es = refl
values_of-kept_step token name e false es = refl

values_of-kept_entries :
    (token name : Bytes) (es : List Bytes)
    → IsOther name
    → values_of name (kept_entries token es) ≡ without token (values_of name es)
unfolding values_of kept_entries
values_of-kept_entries token name [] h = refl
values_of-kept_entries token name (e ∷ es) h =
    values_of-kept_step token name e (is_replaced token (cut_at_equals e)) (kept_entries token es)
    ∙ ap
        (λ vs.
          if is_replaced token (cut_at_equals e) then vs else add_value name (cut_at_equals e) vs)
        (values_of-kept_entries token name es h)
    ∙ kept_value token name (cut_at_equals e) (values_of name es) h

-- The variables that the supervisor sets.
abbrev IsSupplied : Bytes → Type 0
IsSupplied name = (name ≡ codes "TUNNEL_TOKEN") ⊎ (name ≡ codes "TUNNEL_MANAGEMENT_DIAGNOSTICS")

replaced_value :
    (token name : Bytes) (o : Option (Bytes × Bytes))
    → IsSupplied name
    → (if is_replaced token o then [] else add_value name o []) ≡ []
replaced_value token name none h = refl
replaced_value token name (some (key, value)) (inl e) = rw e (ground arith)
replaced_value token name (some (key, value)) (inr e) = rw e (ground arith)

values_of-kept_set :
    (token name : Bytes) (es : List Bytes)
    → IsSupplied name
    → values_of name (kept_entries token es) ≡ []
unfolding values_of kept_entries
values_of-kept_set token name [] h = refl
values_of-kept_set token name (e ∷ es) h =
    values_of-kept_step token name e (is_replaced token (cut_at_equals e)) (kept_entries token es)
    ∙ ap
        (λ vs.
          if is_replaced token (cut_at_equals e) then vs else add_value name (cut_at_equals e) vs)
        (values_of-kept_set token name es h)
    ∙ replaced_value token name (cut_at_equals e) h

cut_token :
    (token : Bytes)
    → cut_at_equals (codes "TUNNEL_TOKEN=" ++ token) ≡ some (codes "TUNNEL_TOKEN", token)
unfolding cut_at_equals
cut_token token = refl

-- What the child sees of a variable: the token and the switch for diagnostics once each, under any
-- spelling of their names, and of every other variable the parent's values, without those that
-- repeat the token.
abbrev pub expected_values : List Bytes → Bytes → Bytes → List Bytes
expected_values environ token name =
    if equal_fold name (codes "TUNNEL_TOKEN")
    then token ∷ []
    else if equal_fold name (codes "TUNNEL_MANAGEMENT_DIAGNOSTICS")
    then codes "false" ∷ []
    else without token (values_of name environ)

abbrev added : Bytes → List Bytes
added token = (codes "TUNNEL_TOKEN=" ++ token) ∷ (codes "TUNNEL_MANAGEMENT_DIAGNOSTICS=false" ∷ [])

values_of_token : (token : Bytes) → values_of (codes "TUNNEL_TOKEN") (added token) ≡ token ∷ []
unfolding values_of equal_fold
values_of_token token = refl

values_of_diagnostics :
    (token : Bytes)
    → values_of (codes "TUNNEL_MANAGEMENT_DIAGNOSTICS") (added token) ≡ codes "false" ∷ []
unfolding values_of equal_fold
values_of_diagnostics token = refl

equal_fold_sym : (a b : Bytes) → equal_fold a b ≡ true → equal_fold b a ≡ true
unfolding equal_fold
equal_fold_sym a b h =
    (bytes_eq_iff (to_lower b) (to_lower a)).1 (sym ((bytes_eq_iff (to_lower a) (to_lower b)).0 h))

equal_fold_other : (a b : Bytes) → equal_fold b a ≡ false → equal_fold a b ≡ false
equal_fold_other a b h = ground (arith, equal_fold_sym a b)

add_value_other :
    (name key value : Bytes) (vs : List Bytes)
    → equal_fold key name ≡ false
    → add_value name (some (key, value)) vs ≡ vs
add_value_other name key value vs h = rw h refl

values_of-added : (token name : Bytes) → IsOther name → values_of name (added token) ≡ []
unfolding values_of
values_of-added token name h =
    add_value_other name (codes "TUNNEL_TOKEN") token
      (values_of name (codes "TUNNEL_MANAGEMENT_DIAGNOSTICS=false" ∷ []))
      (equal_fold_other (codes "TUNNEL_TOKEN") name h.0)
    ∙ add_value_other name (codes "TUNNEL_MANAGEMENT_DIAGNOSTICS") (codes "false") []
        (equal_fold_other (codes "TUNNEL_MANAGEMENT_DIAGNOSTICS") name h.1)

-- A variable has the same values under every spelling of its name.
add_value-fold :
    (a b : Bytes) (o : Option (Bytes × Bytes)) (vs : List Bytes)
    → to_lower a ≡ to_lower b
    → add_value a o vs ≡ add_value b o vs
unfolding equal_fold
add_value-fold a b none vs e = refl
add_value-fold a b (some (key, value)) vs e =
    ap (λ n. if bytes_eq (to_lower key) n then value ∷ vs else vs) e

values_of-fold :
    (a b : Bytes) (es : List Bytes) → to_lower a ≡ to_lower b → values_of a es ≡ values_of b es
unfolding values_of
values_of-fold a b [] e = refl
values_of-fold a b (x ∷ es) e =
    ap (add_value a (cut_at_equals x)) (values_of-fold a b es e)
    ∙ add_value-fold a b (cut_at_equals x) (values_of b es) e

lower_equal : (a b : Bytes) → equal_fold a b ≡ true → to_lower a ≡ to_lower b
unfolding equal_fold
lower_equal a b e = (bytes_eq_iff (to_lower a) (to_lower b)).0 e

token_once :
    (environ : List Bytes) (token : Bytes)
    → values_of (codes "TUNNEL_TOKEN") (cloudflared_environment environ token) ≡ token ∷ []
unfolding cloudflared_environment
token_once environ token =
    values_of-append (codes "TUNNEL_TOKEN") (kept_entries token environ) (added token)
    ∙ rw (values_of-kept_set token (codes "TUNNEL_TOKEN") environ (inl refl))
        (values_of_token token)

diagnostics_off :
    (environ : List Bytes) (token : Bytes)
    → values_of (codes "TUNNEL_MANAGEMENT_DIAGNOSTICS") (cloudflared_environment environ token)
      ≡ codes "false" ∷ []
unfolding cloudflared_environment
diagnostics_off environ token =
    values_of-append (codes "TUNNEL_MANAGEMENT_DIAGNOSTICS") (kept_entries token environ)
      (added token)
    ∙ rw (values_of-kept_set token (codes "TUNNEL_MANAGEMENT_DIAGNOSTICS") environ (inr refl))
        (values_of_diagnostics token)

others_kept :
    (environ : List Bytes) (token name : Bytes)
    → IsOther name
    → values_of name (cloudflared_environment environ token)
      ≡ without token (values_of name environ)
unfolding cloudflared_environment
others_kept environ token name h =
    values_of-append name (kept_entries token environ) (added token)
    ∙ rw (values_of-added token name h, append-nil) (values_of-kept_entries token name environ h)

-- Whatever the parent's environment holds, the child sees the token and the switch for diagnostics
-- once each, with the supervisor's values, under any spelling of their names; and every other
-- variable has the parent's values in their order, without those that repeat the token.
pub values_of-cloudflared_environment :
    (environ : List Bytes) (token name : Bytes)
    → values_of name (cloudflared_environment environ token) ≡ expected_values environ token name
values_of-cloudflared_environment environ token name =
    elim (Bool-cases (equal_fold name (codes "TUNNEL_TOKEN"))) [
      | inl a ↦ rw a (
          values_of-fold name (codes "TUNNEL_TOKEN") (cloudflared_environment environ token)
            (lower_equal name (codes "TUNNEL_TOKEN") a)
          ∙ token_once environ token)
      | inr a ↦ elim (Bool-cases (equal_fold name (codes "TUNNEL_MANAGEMENT_DIAGNOSTICS"))) [
        | inl b ↦
            rw (a, b)
              (values_of-fold name (codes "TUNNEL_MANAGEMENT_DIAGNOSTICS")
                  (cloudflared_environment environ token)
                  (lower_equal name (codes "TUNNEL_MANAGEMENT_DIAGNOSTICS") b)
                ∙ diagnostics_off environ token)
        | inr b ↦ rw (a, b) (others_kept environ token name (a, b))
      ]
    ]
