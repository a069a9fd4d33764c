-- ===== src/Activity/Slots.antt =====
-- The works in flight, and the slots that they have.
use tunnel_client.Base.{
  ℕ, zero, suc, ◌+◌, ◌<◌, ◌≡◌, ◌≢◌, sym, ap, subst, ◌∙◌, Bool, Option, none, some, List, [], ◌∷◌,
  All, arith, Time, zero_time, is_zero, length, set, get_elem?, get_elem?-set_ne, Bool-cases, inl,
  inr,
}
use tunnel_client.Activity.{ActivityHealth, free_slot, next_slot, begin, clear, finish}

-- A work in flight: the slot that it was given, and its start.
abbrev pub Work : Type 0
Work = Option ℕ × Time

pub data Event : Type 0 where
  starts_at : Time → Event
  -- The work at this place among those in flight, the newest first.
  ends_at : (place : ℕ) → Time → (failed timeout : Bool) → Event

abbrev pub drop_at : ℕ → List Work → List Work
drop_at k [] = []
drop_at zero (w ∷ ws) = ws
drop_at (suc k) (w ∷ ws) = w ∷ drop_at k ws

pub record InFlight : Type 0 where
  pub health : ActivityHealth
  pub works : List Work

abbrev pub ended : Option Work → ℕ → Time → Bool → Bool → InFlight → InFlight
ended none k now failed timeout x = x
ended (some w) k now failed timeout x = record {
  health = finish w.0 now failed timeout x.health;
  works = drop_at k x.works;
}

-- Each work is finished with the slot that it was given.
unfoldable pub step : Event → InFlight → InFlight
unfolding begin finish
step (starts_at now) x = record {
  health = (begin now x.health).1;
  works = ((begin now x.health).0, now) ∷ x.works;
}
step (ends_at k now failed timeout) x = ended (get_elem? x.works k) k now failed timeout x

unfoldable pub after : List Event → InFlight → InFlight
unfolding step
after [] x = x
after (e ∷ es) x = step e (after es x)

abbrev pub Held : List Time → Work → Type 0
Held ts (none, t) = Unit {0}
Held ts (some i, t) = (get_elem? ts i ≡ some t) × (0 < t)

abbrev pub Differ : Option ℕ → Work → Type 0
Differ none w = Unit {0}
Differ (some i) (none, u) = Unit {0}
Differ (some i) (some j, u) = i ≢ j

abbrev pub AllDiffer : List Work → Type 0
AllDiffer [] = Unit {0}
AllDiffer (w ∷ ws) = All (Differ w.0) ws × AllDiffer ws

abbrev pub IsFree : List Time → Option ℕ → Type 0
IsFree ts none = Unit {0}
IsFree ts (some i) = get_elem? ts i ≡ some 0

pub next_slot-IsFree :
    (t : Time) (ts : List Time) (o : Option ℕ) → IsFree ts o → IsFree (t ∷ ts) (next_slot o)
next_slot-IsFree t ts none h = tt
next_slot-IsFree t ts (some i) h = h

pub free_slot-IsFree : (ts : List Time) → IsFree ts (free_slot ts)
unfolding free_slot
free_slot-IsFree [] = tt
free_slot-IsFree (t ∷ ts) = elim (Bool-cases (is_zero t)) [
  | inl e ↦ rw e (ap some (ground (arith, e)))
  | inr e ↦ rw e (next_slot-IsFree t ts (free_slot ts) (free_slot-IsFree ts))
]

pub Held-set :
    (ts : List Time) (i : ℕ) (v : Time) (w : Work)
    → Differ (some i) w
    → Held ts w
    → Held (set ts i v) w
Held-set ts i v (none, t) d h = tt
Held-set ts i v (some j, t) d h = (get_elem?-set_ne ts i j v d ∙ h.0, h.1)

pub Held-set-All :
    (ts : List Time) (i : ℕ) (v : Time) (ws : List Work)
    → All (Differ (some i)) ws
    → All (Held ts) ws
    → All (Held (set ts i v)) ws
Held-set-All ts i v [] d h = tt
Held-set-All ts i v (w ∷ ws) d h = (Held-set ts i v w d.0 h.0, Held-set-All ts i v ws d.1 h.1)

pub not_zero : (t : Time) → 0 < t → some 0 ≢ some t
not_zero t h e = absurd (ground (arith, e))

pub get_elem?-length : (ts : List Time) (i : ℕ) (t : Time) → get_elem? ts i ≡ some t → i < length ts
get_elem?-length [] i t h = cc
get_elem?-length (u ∷ ts) zero t h = omega arith
get_elem?-length (u ∷ ts) (suc i) t h = omega (arith, get_elem?-length ts i t h)

-- A free slot is not the slot of a work in flight.
pub IsFree-Differ :
    (ts : List Time) (i : ℕ) (ws : List Work)
    → get_elem? ts i ≡ some 0
    → All (Held ts) ws
    → All (Differ (some i)) ws
IsFree-Differ ts i [] f h = tt
IsFree-Differ ts i ((none, t) ∷ ws) f h = (tt, IsFree-Differ ts i ws f h.1)
IsFree-Differ ts i ((some j, t) ∷ ws) f h =
    ((λ e. not_zero t h.0.1 (sym f ∙ ap (get_elem? ts) e ∙ h.0.0)), IsFree-Differ ts i ws f h.1)

pub Differ-none : (ws : List Work) → All (Differ none) ws
Differ-none [] = tt
Differ-none (w ∷ ws) = (tt, Differ-none ws)

abbrev pub or_else : Work → Option Work → Work
or_else v none = v
or_else v (some w) = w

pub pick-All :
    (P : Work → Type 0) (ws : List Work) (k : ℕ) (w : Work)
    → get_elem? ws k ≡ some w
    → All P ws
    → P w
pick-All P [] k w e h = cc
pick-All P (v ∷ ws) zero w e h = subst P (ap (or_else v) e) h.0
pick-All P (v ∷ ws) (suc k) w e h = pick-All P ws k w e h.1

pub drop-All : (P : Work → Type 0) (ws : List Work) (k : ℕ) → All P ws → All P (drop_at k ws)
drop-All P [] k h = tt
drop-All P (v ∷ ws) zero h = h.1
drop-All P (v ∷ ws) (suc k) h = (h.0, drop-All P ws k h.1)

pub drop-AllDiffer : (ws : List Work) (k : ℕ) → AllDiffer ws → AllDiffer (drop_at k ws)
drop-AllDiffer [] k h = tt
drop-AllDiffer (v ∷ ws) zero h = h.1
drop-AllDiffer (v ∷ ws) (suc k) h = (drop-All (Differ v.0) ws k h.0, drop-AllDiffer ws k h.1)

pub Differ-sym : (v w : Work) → Differ v.0 w → Differ w.0 v
Differ-sym (none, t) (none, u) h = tt
Differ-sym (none, t) (some j, u) h = tt
Differ-sym (some i, t) (none, u) h = tt
Differ-sym (some i, t) (some j, u) h = λ e. h (sym e)

pub drop-Differ :
    (ws : List Work) (k : ℕ) (w : Work)
    → get_elem? ws k ≡ some w
    → AllDiffer ws
    → All (Differ w.0) (drop_at k ws)
drop-Differ [] k w e h = tt
drop-Differ (v ∷ ws) zero w e h = subst (λ u. All (Differ u.0) ws) (ap (or_else v) e) h.0
drop-Differ (v ∷ ws) (suc k) w e h =
    (Differ-sym v w (pick-All (Differ v.0) ws k w e h.0), drop-Differ ws k w e h.1)

pub length-drop_at :
    (ws : List Work) (k : ℕ) (w : Work)
    → get_elem? ws k ≡ some w
    → length (drop_at k ws) + 1 ≡ length ws
length-drop_at [] k w e = cc
length-drop_at (v ∷ ws) zero w e = omega arith
length-drop_at (v ∷ ws) (suc k) w e = omega (arith, length-drop_at ws k w e)

pub clear-Held :
    (slot : Option ℕ) (ts : List Time) (ws : List Work)
    → All (Differ slot) ws
    → All (Held ts) ws
    → All (Held (clear slot ts)) ws
clear-Held none ts ws d h = h
clear-Held (some i) ts ws d h = Held-set-All ts i zero_time ws d h
