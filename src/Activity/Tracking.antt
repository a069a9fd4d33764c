-- ===== src/Activity/Tracking.antt =====
-- The slots against the work in flight.
use tunnel_client.Base.{
  ℕ, zero, suc, ◌+◌, ◌≤◌, ◌<◌, ◌≡◌, refl, ap, ◌∙◌, Bool, Option, none, some, List, [], ◌∷◌, All,
  arith, Time, since_until, length, get_elem?, get_elem?-set_self,
}
use tunnel_client.Health.{max_uint64, increment}
use tunnel_client.Activity.{ActivityHealth, free_slot, claim, begun, begin, finish, oldest_age}
use tunnel_client.Activity.Slots.{
  Work, Event, drop_at, InFlight, ended, step, after, Held, Differ, AllDiffer, IsFree,
  free_slot-IsFree, Held-set-All, get_elem?-length, IsFree-Differ, Differ-none, drop-All,
  drop-AllDiffer, drop-Differ, length-drop_at, clear-Held, starts_at, ends_at,
}

-- Every work in flight has its start in its slot, no two have the same slot, and the counter of
-- active works is their number.
pub record IsTracked (s : ActivityHealth) (ws : List Work) : Type 0 where
  pub held : All (Held s.starts) ws
  pub different : AllDiffer ws
  pub counted : s.active ≡ length ws

claim-IsTracked :
    (now : Time) (o : Option ℕ) (s : ActivityHealth) (ws : List Work)
    → 0 < now
    → IsFree s.starts o
    → All (Held s.starts) ws
    → AllDiffer ws
    → All (Held (claim now o s).starts) ((o, now) ∷ ws) × AllDiffer ((o, now) ∷ ws)
claim-IsTracked now none s ws p f h d = ((tt, h), (Differ-none ws, d))
claim-IsTracked now (some i) s ws p f h d =
    let differ : All (Differ (some i)) ws = IsFree-Differ s.starts i ws f h in
    (
      (
        (get_elem?-set_self s.starts i now (get_elem?-length s.starts i 0 f), p),
        Held-set-All s.starts i now ws differ h,
      ),
      (differ, d),
    )

ended-IsTracked :
    (k : ℕ) (now : Time) (failed timeout : Bool) (x : InFlight) (o : Option Work)
    → get_elem? x.works k ≡ o
    → IsTracked x.health x.works
    → IsTracked (ended o k now failed timeout x).health (ended o k now failed timeout x).works
unfolding finish
ended-IsTracked k now failed timeout x none e h = h
ended-IsTracked k now failed timeout x (some w) e h = record {
  held =
      clear-Held w.0 x.health.starts (drop_at k x.works) (drop-Differ x.works k w e h.different)
        (drop-All (Held x.health.starts) x.works k h.held);
  different = drop-AllDiffer x.works k h.different;
  counted = ground (arith, h.counted, length-drop_at x.works k w e);
}

claim-active : (now : Time) (o : Option ℕ) (s : ActivityHealth) → (claim now o s).active ≡ s.active
claim-active now none s = refl
claim-active now (some i) s = refl

begin-IsTracked :
    (now : Time) (s : ActivityHealth) (ws : List Work)
    → 0 < now
    → length ws < max_uint64
    → IsTracked s ws
    → IsTracked (begin now s).1 (((begin now s).0, now) ∷ ws)
unfolding begin increment
begin-IsTracked now s ws p l h =
    let claimed : All (Held (begin now s).1.starts) (((begin now s).0, now) ∷ ws)
        × AllDiffer (((begin now s).0, now) ∷ ws) =
      claim-IsTracked now (free_slot s.starts) (begun now s) ws p (free_slot-IsFree s.starts) h.held
        h.different in
    record {
      held = claimed.0;
      different = claimed.1;
      counted = claim-active now (free_slot s.starts) (begun now s) ∙ ground (arith, h.counted);
    }

abbrev pub StartsLater : Event → Type 0
StartsLater (starts_at now) = 0 < now
StartsLater (ends_at k now failed timeout) = Unit {0}

length-ended :
    (k : ℕ) (now : Time) (failed timeout : Bool) (x : InFlight) (o : Option Work)
    → get_elem? x.works k ≡ o
    → length (ended o k now failed timeout x).works ≤ length x.works
length-ended k now failed timeout x none e = omega arith
length-ended k now failed timeout x (some w) e = omega (arith, length-drop_at x.works k w e)

length-after :
    (es : List Event) (x : InFlight) → length (after es x).works ≤ length es + length x.works
unfolding after step
length-after [] x = omega arith
length-after (starts_at now ∷ es) x = omega (arith, length-after es x)
length-after (ends_at k now failed timeout ∷ es) x = omega (
  arith,
  length-after es x,
  length-ended k now failed timeout (after es x) (get_elem? (after es x).works k) refl,
)

-- Whatever works start and end, in any order, from none in flight, as long as there are fewer than
-- 2^64 events and no work starts at the zero time: every work in flight that got a slot has its start in it, no two
-- have the same slot, and the counter of active works is exact.
pub after-IsTracked :
    (es : List Event) (x : InFlight)
    → x.works ≡ []
    → x.health.active ≡ 0
    → length es ≤ max_uint64
    → All StartsLater es
    → IsTracked (after es x).health (after es x).works
unfolding after step
after-IsTracked [] x e a l p = rw e (record { held = tt; different = tt; counted = rw a refl })
after-IsTracked (starts_at now ∷ es) x e a l p =
    begin-IsTracked now (after es x).health (after es x).works p.0
      (omega (arith, length-after es x, ap length e)) (after-IsTracked es x e a (omega arith) p.1)
after-IsTracked (ends_at k now failed timeout ∷ es) x e a l p =
    ended-IsTracked k now failed timeout (after es x) (get_elem? (after es x).works k) refl
      (after-IsTracked es x e a (omega arith) p.1)

abbrev or_zero : Time → Option Time → Time
or_zero u none = u
or_zero u (some t) = t

oldest_age_ge :
    (now : Time) (ts : List Time) (i : ℕ) (t : Time)
    → get_elem? ts i ≡ some t
    → 0 < t
    → since_until t now ≤ oldest_age now ts
unfolding oldest_age
oldest_age_ge now [] i t h p = cc
oldest_age_ge now (u ∷ ts) zero t h p = let same : u ≡ t = ap (or_zero u) h in ground (arith, same)
oldest_age_ge now (u ∷ ts) (suc i) t h p = ground (arith, oldest_age_ge now ts i t h p)

-- The age of a work that has a slot.
abbrev pub IsAged : Time → List Time → Work → Type 0
IsAged now ts (none, t) = Unit {0}
IsAged now ts (some i, t) = since_until t now ≤ oldest_age now ts

Held-IsAged : (now : Time) (ts : List Time) (w : Work) → Held ts w → IsAged now ts w
Held-IsAged now ts (none, t) h = tt
Held-IsAged now ts (some i, t) h = oldest_age_ge now ts i t h.0 h.1

Held-IsAged-All :
    (now : Time) (ts : List Time) (ws : List Work) → All (Held ts) ws → All (IsAged now ts) ws
Held-IsAged-All now ts [] h = tt
Held-IsAged-All now ts (w ∷ ws) h = (Held-IsAged now ts w h.0, Held-IsAged-All now ts ws h.1)

-- After fewer than 2^64 starts and ends of works, none of which starts at the zero time, no work in
-- flight that got a slot is older than the oldest age computed from the slots.
pub after-IsAged :
    (es : List Event) (x : InFlight) (now : Time)
    → x.works ≡ []
    → x.health.active ≡ 0
    → length es ≤ max_uint64
    → All StartsLater es
    → All (IsAged now (after es x).health.starts) (after es x).works
after-IsAged es x now e a l p =
    Held-IsAged-All now (after es x).health.starts (after es x).works
      (after-IsTracked es x e a l p).held
