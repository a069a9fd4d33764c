-- ===== src/ExtraHeaders/Normal.antt =====
-- What the normalization of extra headers leaves: pkg/runtimeconfig/http_headers.go.
use tunnel_client.Base.{
  ◌≡◌, refl, ap, ◌∙◌, sym, subst, Bool, true, false, not, Option, none, some, [], ◌∷◌,
  if◌then◌else◌, Bytes, codes, bytes_eq, bytes_eq_iff, is_empty, trim_space, to_lower, Bool-cases,
  inl, inr,
}
use tunnel_client.ExtraHeaders.{
  HeaderError, invalid_name, invalid_value, conflicting_values, Headers, lookup,
  valid_http_header_field_name, valid_http_header_field_value, canonical_header_key, Outcome, done,
  refused, append_header, added, add_header, then_do, normalize_from, has_prefix,
}
use tunnel_client.ExtraHeaders.Names.{canonical_header_key_twice, valid_name-canonical_header_key}

-- A value that resolves to itself.
pub record IsLiteral (value : Bytes) : Type 0 where
  pub trimmed : trim_space value ≡ value
  pub filled : is_empty value ≡ false
  pub no_variable : has_prefix (codes "env:") (to_lower value) ≡ false
  pub no_file : has_prefix (codes "file:") (to_lower value) ≡ false

-- An entry as the normalization leaves it.
pub record IsNormalEntry (name value : Bytes) : Type 0 where
  pub valid_name : valid_http_header_field_name name ≡ true
  pub canonical : canonical_header_key name ≡ name
  pub valid_value : valid_http_header_field_value value ≡ true
  pub literal : IsLiteral value

abbrev pub Each : (Bytes → Bytes → Type 0) → Headers → Type 0
Each P [] = Unit {0}
Each P ((name, value) ∷ hs) = P name value × Each P hs

abbrev pub IsDistinct : Headers → Type 0
IsDistinct [] = Unit {0}
IsDistinct ((name, value) ∷ hs) = (lookup name hs ≡ none) × IsDistinct hs

pub lookup-append_header :
    (hs : Headers) (name key value : Bytes)
    → bytes_eq name key ≡ false
    → lookup name (append_header hs key value) ≡ lookup name hs
lookup-append_header [] name key value e = rw e refl
lookup-append_header ((n, v) ∷ hs) name key value e =
    rw (lookup-append_header hs name key value e) refl

Each-append_header :
    (P : Bytes → Bytes → Type 0) (hs : Headers) (name value : Bytes)
    → Each P hs
    → P name value
    → Each P (append_header hs name value)
Each-append_header P [] name value h p = (p, tt)
Each-append_header P ((n, v) ∷ hs) name value h p = (h.0, Each-append_header P hs name value h.1 p)

pub no_confusion : true ≡ false → ⊥
no_confusion e = cc

pub bytes_eq_sym : (a b : Bytes) → bytes_eq a b ≡ false → bytes_eq b a ≡ false
bytes_eq_sym a b e = elim (Bool-cases (bytes_eq b a)) [
  | inl t ↦ absurd (no_confusion (sym ((bytes_eq_iff a b).1 (sym ((bytes_eq_iff b a).0 t))) ∙ e))
  | inr f ↦ f
]

pub if_none :
    (b : Bool) (v : Bytes) (o : Option Bytes)
    → (if b then some v else o) ≡ none
    → (b ≡ false) × (o ≡ none)
if_none true v o e = cc
if_none false v o e = (refl, e)

IsDistinct-append_header :
    (hs : Headers) (name value : Bytes)
    → IsDistinct hs
    → lookup name hs ≡ none
    → IsDistinct (append_header hs name value)
IsDistinct-append_header [] name value h e = (refl, tt)
IsDistinct-append_header ((n, v) ∷ hs) name value h e =
    let f : (bytes_eq name n ≡ false) × (lookup name hs ≡ none) =
      if_none (bytes_eq name n) v (lookup name hs) e in
    (
      lookup-append_header hs n name value (bytes_eq_sym name n f.0) ∙ h.0,
      IsDistinct-append_header hs name value h.1 f.1,
    )

abbrev or_else : {A : Type 0} → A → Outcome A → A
or_else a (done b) = b
or_else a (refused e) = a

done_injective : {A : Type 0} (a b : A) → done a ≡ done b → a ≡ b
done_injective a b e = ap (or_else a) e

abbrev is_done : {A : Type 0} → Outcome A → Bool
is_done (done a) = true
is_done (refused e) = false

refused_done : {A P : Type 0} (x : HeaderError) (a : A) → refused x ≡ done a → P
refused_done x a e = absurd (no_confusion (sym (ap is_done e)))

if_done :
    (b : Bool) (x n : Headers) (c : HeaderError)
    → (if b then done x else refused c) ≡ done n
    → x ≡ n
if_done true x n c e = done_injective x n e
if_done false x n c e = refused_done c n e

-- A test that refuses was passed.
passed :
    (b : Bool) (c : HeaderError) (o : Outcome Headers) (n : Headers)
    → (if not b then refused c else o) ≡ done n
    → (b ≡ true) × (o ≡ done n)
passed true c o n e = (refl, e)
passed false c o n e = refused_done c n e

-- What a successful normalization leaves.
pub record IsNormal (hs : Headers) : Type 0 where
  pub entries : Each IsNormalEntry hs
  pub distinct : IsDistinct hs

abbrev pub HasLiterals : Headers → Type 0
HasLiterals hs = Each (λ name value. IsLiteral value) hs

added-IsNormal :
    (acc : Headers) (key value : Bytes) (o : Option Bytes) (n : Headers)
    → lookup key acc ≡ o
    → IsNormalEntry key value
    → IsNormal acc
    → added acc key value o ≡ done n
    → IsNormal n
added-IsNormal acc key value none n e p h d =
    subst IsNormal (done_injective (append_header acc key value) n d) record {
      entries = Each-append_header IsNormalEntry acc key value h.entries p;
      distinct = IsDistinct-append_header acc key value h.distinct e;
    }
added-IsNormal acc key value (some existing) n e p h d =
    subst IsNormal (if_done (bytes_eq existing value) acc n conflicting_values d) h

add_header-IsNormal :
    (acc : Headers) (name value : Bytes) (n : Headers)
    → IsLiteral value
    → IsNormal acc
    → add_header acc (name, value) ≡ done n
    → IsNormal n
unfolding add_header
add_header-IsNormal acc name value n l h d =
    let key = canonical_header_key name in
    let a = passed (valid_http_header_field_name name) invalid_name _ n d in
    let b = passed (valid_http_header_field_value value) invalid_value _ n a.1 in
    added-IsNormal acc key value (lookup key acc) n refl
      (record {
        valid_name = valid_name-canonical_header_key name a.0;
        canonical = canonical_header_key_twice name;
        valid_value = b.0;
        literal = l;
      })
      h b.1

then_do-cases :
    {A B : Type 0} (f : A → Outcome B) (o : Outcome A) (b : B)
    → then_do f o ≡ done b
    → (a : A) × (o ≡ done a) × (f a ≡ done b)
then_do-cases f (done a) b e = (a, refl, e)
then_do-cases f (refused x) b e = refused_done x b e

pub normalize_from-IsNormal :
    (hs acc n : Headers)
    → HasLiterals hs
    → IsNormal acc
    → normalize_from acc hs ≡ done n
    → IsNormal n
unfolding normalize_from
normalize_from-IsNormal [] acc n l h d = subst IsNormal (done_injective acc n d) h
normalize_from-IsNormal ((name, value) ∷ hs) acc n l h d =
    let r = then_do-cases (λ next. normalize_from next hs) (add_header acc (name, value)) n d in
    normalize_from-IsNormal hs r.0 n l.1 (add_header-IsNormal acc name value r.0 l.0 h r.1) r.2
