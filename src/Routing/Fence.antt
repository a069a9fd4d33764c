-- ===== src/Routing/Fence.antt =====
-- Overlapping attempts: the generation lets only the first result of a generation count.
use tunnel_client.Base.{
  ◌+◌, ◌<◌, ◌≡◌, refl, Bool, true, false, Option, none, some, arith, Bytes, All, subst, ◌++◌, List,
  ◌∷◌, [], ◌⊎◌, inl, inr,
}
use tunnel_client.Routing.{
  PollRoutingState, RoutingAttempt, Outcome, complete, apply_outcome, snapshot, is_bearing, u64,
  RoutingCorrection,
}

apply_outcome-generation :
    (s : PollRoutingState) (t : Bytes) (c : Option RoutingCorrection) (a f : Bool)
    → (apply_outcome s t c a f).generation ≡ s.generation
unfolding apply_outcome
apply_outcome-generation s t c true f = refl
apply_outcome-generation s t none false f = ground arith
apply_outcome-generation s t (some c) false f = ground arith

-- A result that counts moves to the next generation.
complete-generation :
    (s : PollRoutingState) (attempt : RoutingAttempt) (o : Outcome)
    → is_bearing o ≡ true
    → attempt.generation ≡ s.generation
    → (complete s attempt o).generation ≡ u64 (s.generation + 1)
unfolding complete
complete-generation s attempt o b e = ground (
  arith,
  apply_outcome-generation (record s { generation = u64 (s.generation + 1) }) attempt.token
      o.correction o.available o.failed_destination,
)

complete_stale :
    (s : PollRoutingState) (attempt : RoutingAttempt) (o : Outcome)
    → ¬ (attempt.generation ≡ s.generation)
    → complete s attempt o ≡ s
unfolding complete
complete_stale s attempt o ne = ground arith

-- Of two attempts that start from one snapshot, the second to finish changes nothing if the
-- first carried news.
pub complete_once :
    (s : PollRoutingState) (o p : Outcome)
    → is_bearing o ≡ true
    → s.generation < 18446744073709551616
    → complete (complete s (snapshot s) o) (snapshot s) p ≡ complete s (snapshot s) o
unfolding snapshot
complete_once s o p b bounded =
    complete_stale (complete s (snapshot s) o) (snapshot s) p
      λ e. omega (arith, complete-generation s (snapshot s) o b refl)

-- The client with the polls that are under way.
pub record Flight : Type 0 where
  pub state : PollRoutingState
  pub inflight : List RoutingAttempt

-- A poll takes a snapshot, and finishes later in any order. Fewer than 2 ^ 64 completions.
pub data PollStep (w : Flight) : Flight → Type 0 where
  begin : PollStep w (record w { inflight = snapshot w.state ∷ w.inflight })
  finish :
      (before after : List RoutingAttempt) (attempt : RoutingAttempt) (o : Outcome)
      → w.inflight ≡ before ++ attempt ∷ after
      → w.state.generation + 1 < 18446744073709551616
      → PollStep w (record { state = complete w.state attempt o; inflight = before ++ after })

pub data Flies (w : Flight) : Flight → Type 0 where
  here : Flies w w
  next : {u v : Flight} → Flies w u → PollStep u v → Flies w v

-- An attempt whose generation still counts was made with the token in use.
abbrev pub IsCurrent : PollRoutingState → RoutingAttempt → Type 0
IsCurrent s a =
    (a.generation < s.generation) ⊎ ((a.generation ≡ s.generation) × (a.token ≡ s.token))

complete-IsCurrent :
    (s : PollRoutingState) (attempt a : RoutingAttempt) (o : Outcome)
    → s.generation + 1 < 18446744073709551616
    → IsCurrent s a
    → IsCurrent (complete s attempt o) a
unfolding complete
complete-IsCurrent s attempt a o bounded h = ground (
  arith,
  apply_outcome-generation (record s { generation = u64 (s.generation + 1) }) attempt.token
      o.correction o.available o.failed_destination,
)

complete-All :
    (s : PollRoutingState) (attempt : RoutingAttempt) (o : Outcome) (l : List RoutingAttempt)
    → s.generation + 1 < 18446744073709551616
    → All (IsCurrent s) l
    → All (IsCurrent (complete s attempt o)) l
complete-All s attempt o [] bounded h = tt
complete-All s attempt o (a ∷ l) bounded h =
    (complete-IsCurrent s attempt a o bounded h.0, complete-All s attempt o l bounded h.1)

All-without :
    (s : PollRoutingState) (before after : List RoutingAttempt) (a : RoutingAttempt)
    → All (IsCurrent s) (before ++ a ∷ after)
    → All (IsCurrent s) (before ++ after)
All-without s [] after a h = h.1
All-without s (b ∷ before) after a h = (h.0, All-without s before after a h.1)

snapshot-IsCurrent : (s : PollRoutingState) → IsCurrent s (snapshot s)
unfolding snapshot
snapshot-IsCurrent s = inr (refl, refl)

Flies-IsCurrent :
    {w v : Flight}
    → Flies w v
    → All (IsCurrent w.state) w.inflight
    → All (IsCurrent v.state) v.inflight
Flies-IsCurrent here h = h
Flies-IsCurrent (next {u} r begin) h = (snapshot-IsCurrent u.state, Flies-IsCurrent r h)
Flies-IsCurrent (next {u} r (finish before after attempt o e bounded)) h =
    complete-All u.state attempt o (before ++ after) bounded (
      All-without u.state before after attempt
        (subst (All (IsCurrent u.state)) e (Flies-IsCurrent r h)))

-- Whatever its outcome, the attempt changes nothing; or it was made with the token held now.
abbrev pub IsFenced : PollRoutingState → RoutingAttempt → Type 0
IsFenced s a = ((o : Outcome) → complete s a o ≡ s) ⊎ (a.token ≡ s.token)

IsCurrent-IsFenced : (s : PollRoutingState) (a : RoutingAttempt) → IsCurrent s a → IsFenced s a
IsCurrent-IsFenced s a (inl l) = inl (λ o. complete_stale s a o (λ e. omega arith))
IsCurrent-IsFenced s a (inr h) = inr h.1

All-IsFenced :
    (s : PollRoutingState) (l : List RoutingAttempt) → All (IsCurrent s) l → All (IsFenced s) l
All-IsFenced s [] h = tt
All-IsFenced s (a ∷ l) h = (IsCurrent-IsFenced s a h.0, All-IsFenced s l h.1)

-- From a client with no poll under way, in any state, let polls begin and complete in any order,
-- where at each completion the generation is below 2 ^ 64 - 1, so that it does not wrap around.
-- Then each attempt under way was made with the token that the client holds now, or completing it
-- leaves the client's routing state as it is, whatever its outcome.
pub Flies-IsFenced :
    (s : PollRoutingState) (v : Flight)
    → Flies (record { state = s; inflight = [] }) v
    → All (IsFenced v.state) v.inflight
Flies-IsFenced s v r = All-IsFenced v.state v.inflight (Flies-IsCurrent r tt)
