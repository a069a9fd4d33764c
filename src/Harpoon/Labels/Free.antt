-- ===== src/Harpoon/Labels/Free.antt =====
-- The label found is one that no target has: pkg/runtimeharpoon/host_registration.go.
use tunnel_client.Base.{
  ◌≡◌, refl, ap, sym, ◌∙◌, ◌⊎◌, ℕ, zero, suc, ◌+◌, Bool, true, false, ◌||◌, List, [], ◌∷◌, Bytes,
  bytes_eq, is_empty, is_some, arith, Bool-cases, inl, inr,
}
use tunnel_client.Harpoon.Target.{Target}
use tunnel_client.Harpoon.Registry.{Registry, has_label}
use tunnel_client.Harpoon.Lookup.{lookup, labelled}
use tunnel_client.Harpoon.Labels.{candidate, try_labels, max_tries, resolve_auto_label_collision}
use tunnel_client.Harpoon.Labels.Valid.{IsLabel, candidate-IsLabel, trim_space_label}

labelled-has_label :
    (l : Bytes) (ts : List (Bytes × Target)) → is_some (labelled l ts) ≡ has_label l ts
labelled-has_label l [] = refl
labelled-has_label l ((k, t) ∷ ts) = elim (Bool-cases (bytes_eq l k)) [
  | inl a ↦ rw a refl
  | inr b ↦ rw b (labelled-has_label l ts)
]

lookup-has_label :
    (l : Bytes) (r : Registry) → IsLabel l → is_some (lookup l r) ≡ has_label l r.targets
unfolding lookup
lookup-has_label l r h =
    ap (λ s. is_some (labelled s r.targets)) (trim_space_label l h.1)
    ∙ labelled-has_label l r.targets

or_false : (a b : Bool) → (a || b) ≡ false → (a ≡ false) × (b ≡ false)
or_false a b h = ground arith

not_empty : (l : Bytes) → l ≡ [] → is_empty l ≡ false → ⊥
not_empty l e h = cc

-- A label that no target of the registry has.
abbrev pub IsFree : Registry → Bytes → Type 0
IsFree r l = IsLabel l × (has_label l r.targets ≡ false)

candidate-IsFree :
    (r : Registry) (l : Bytes)
    → (l ≡ []) ⊎ IsLabel l
    → (is_empty l || is_some (lookup l r)) ≡ false
    → IsFree r l
candidate-IsFree r l (inl e) h = absurd (not_empty l e (or_false _ _ h).0)
candidate-IsFree r l (inr i) h = (i, sym (lookup-has_label l r i) ∙ (or_false (is_empty l) _ h).1)

-- Nothing, or a free label.
abbrev pub IsFound : Registry → Bytes × ℕ → Type 0
IsFound r x = (x.0 ≡ []) ⊎ IsFree r x.0

chosen-IsFound :
    (b : Bool) (r : Registry) (l : Bytes) (i : ℕ) (rest : Bytes × ℕ)
    → (l ≡ []) ⊎ IsLabel l
    → b ≡ (is_empty l || is_some (lookup l r))
    → IsFound r rest
    → IsFound r (elim b [ true ↦ rest | false ↦ (l, i) ])
chosen-IsFound true r l i rest h e g = g
chosen-IsFound false r l i rest h e g = inr (candidate-IsFree r l h (sym e))

try_labels-IsFound :
    (tries : ℕ) (base : Bytes) (r : Registry) (i : ℕ)
    → IsLabel base
    → IsFound r (try_labels tries base r i)
unfolding try_labels
try_labels-IsFound zero base r i h = inl refl
try_labels-IsFound (suc n) base r i h =
    chosen-IsFound (is_empty (candidate base i) || is_some (lookup (candidate base i) r)) r
      (candidate base i) i (try_labels n base r (i + 1)) (candidate-IsLabel base i h) refl
      (try_labels-IsFound n base r (i + 1) h)

pub resolve_auto_label_collision-IsFound :
    (base : Bytes) (r : Registry)
    → (base ≡ []) ⊎ IsLabel base
    → IsFound r (resolve_auto_label_collision base r)
unfolding resolve_auto_label_collision
resolve_auto_label_collision-IsFound [] r h = inl refl
resolve_auto_label_collision-IsFound (c ∷ s) r (inl e) = absurd (not_empty (c ∷ s) e refl)
resolve_auto_label_collision-IsFound (c ∷ s) r (inr h) = try_labels-IsFound max_tries (c ∷ s) r 0 h
