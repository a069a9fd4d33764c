-- ===== src/Harpoon/Metadata.antt =====
-- The metadata of a target, cleaned: pkg/runtimeharpoon/metadata.go.
use tunnel_client.Base.{
  Bool, true, false, ◌&&◌, ◌||◌, List, [], ◌∷◌, ◌==◌, ltb, if◌then◌else◌, Bytes, bytes_eq, is_empty,
  to_lower, trim_space,
}

unfoldable pub normalize_token : Bytes → Bytes
unfolding to_lower trim_space
normalize_token value = to_lower (trim_space value)

abbrev or_else : Bytes → Bytes → Bytes
or_else a b = if is_empty a then b else a

-- The category, and the source, which is the category unless both are empty.
unfoldable pub normalize_category_source : Bytes → Bytes → Bytes × Bytes
unfolding normalize_token
normalize_category_source category source =
    let c = or_else (normalize_token category) (normalize_token source) in
    (c, or_else c (or_else (normalize_token source) c))

abbrev pub holds_text : Bytes → List Bytes → Bool
holds_text t [] = false
holds_text t (s ∷ ss) = bytes_eq t s || holds_text t ss

abbrev pub precedes : Bytes → Bytes → Bool
precedes [] _ = true
precedes (a ∷ x) [] = false
precedes (a ∷ x) (b ∷ y) = ltb a b || (a == b && precedes x y)

abbrev pub insert_text : Bytes → List Bytes → List Bytes
insert_text t [] = t ∷ []
insert_text t (s ∷ ss) =
    let rest = insert_text t ss in if precedes t s then t ∷ s ∷ ss else s ∷ rest

-- sort.Strings.
abbrev pub sort_texts : List Bytes → List Bytes
sort_texts [] = []
sort_texts (t ∷ ts) = insert_text t (sort_texts ts)

-- The normalized texts that are not empty, each once; `seen` holds those before.
unfoldable pub distinct_tags : (seen : List Bytes) → List Bytes → List Bytes
unfolding normalize_token
distinct_tags seen [] = []
distinct_tags seen (tag ∷ tags) =
    let tag' = normalize_token tag in
    let skip = is_empty tag' || holds_text tag' seen in
    let rest = distinct_tags (if skip then seen else tag' ∷ seen) tags in
    if skip then rest else tag' ∷ rest

unfoldable pub normalize_tags : List Bytes → List Bytes
unfolding distinct_tags
normalize_tags tags = sort_texts (distinct_tags [] tags)
