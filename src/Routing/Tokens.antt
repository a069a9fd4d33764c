-- ===== src/Routing/Tokens.antt =====
-- Which token a client may hold: invariants of the placement state.
use tunnel_client.Base.{
  ◌+◌, ◌≤◌, ◌<◌, ◌≡◌, ◌⊎◌, Bool, true, false, Option, none, some, List, [], ◌∷◌, arith, Bytes,
  bytes_eq_iff,
}
use tunnel_client.Routing.{
  PollRoutingState, RoutingAttempt, RoutingCorrection, Outcome, PollResult, new_routing, complete,
  apply_outcome, poll_outcome, complete_poll, poll_sequence, snapshot, u64,
}

-- The token in use is none or the one accepted for the known revision, and the counters are
-- below the limit.
pub record IsPinned (s : PollRoutingState) : Type 0 where
  pub pinned : (s.token ≡ []) ⊎ ((s.token ≡ s.accepted_token) × (s.known ≡ true))
  pub failures_capped : s.failures < 3
  pub corrections_capped : s.corrections < 3

apply_outcome-IsPinned :
    (s : PollRoutingState) (t : Bytes) (c : Option RoutingCorrection) (a f : Bool)
    → IsPinned s
    → IsPinned (apply_outcome s t c a f)
unfolding apply_outcome
apply_outcome-IsPinned s t c true f h = ground arith
apply_outcome-IsPinned s t none false f h = ground arith
apply_outcome-IsPinned s t (some c) false f h =
    ground (arith, bytes_eq_iff c.shard_token s.accepted_token)

advance-IsPinned :
    (s : PollRoutingState)
    → IsPinned s
    → IsPinned (record s { generation = u64 (s.generation + 1) })
advance-IsPinned s h = record {
  pinned = h.pinned;
  failures_capped = h.failures_capped;
  corrections_capped = h.corrections_capped;
}

-- Every completion keeps a placement state pinned: the token in use is none or the accepted one,
-- and both counters stay below the limit.
pub complete-IsPinned :
    (s : PollRoutingState) (attempt : RoutingAttempt) (o : Outcome)
    → IsPinned s
    → IsPinned (complete s attempt o)
unfolding complete
complete-IsPinned s attempt o h = ground (
  arith,
  apply_outcome-IsPinned (record s { generation = u64 (s.generation + 1) }) attempt.token
      o.correction o.available o.failed_destination (advance-IsPinned s h),
)

-- Revisions never go back, and the token accepted for a revision is never replaced by another.
pub record Follows (s t : PollRoutingState) : Type 0 where
  pub stays_known : s.known ≡ true → t.known ≡ true
  pub no_rollback : s.known ≡ true → s.revision ≤ t.revision
  pub no_rival : s.known ≡ true → t.revision ≡ s.revision → t.accepted_token ≡ s.accepted_token

apply_outcome-Follows :
    (s : PollRoutingState) (t : Bytes) (c : Option RoutingCorrection) (a f : Bool)
    → Follows s (apply_outcome s t c a f)
unfolding apply_outcome
apply_outcome-Follows s t c true f = ground arith
apply_outcome-Follows s t none false f = ground arith
apply_outcome-Follows s t (some c) false f = ground arith

pub complete-Follows :
    (s : PollRoutingState) (attempt : RoutingAttempt) (o : Outcome)
    → Follows s (complete s attempt o)
unfolding complete
complete-Follows s attempt o = ground (
  arith,
  apply_outcome-Follows (record s { generation = u64 (s.generation + 1) }) attempt.token
      o.correction o.available o.failed_destination,
)

Follows-refl : (s : PollRoutingState) → Follows s s
Follows-refl s = ground arith

Follows-trans : {s t u : PollRoutingState} → Follows s t → Follows t u → Follows s u
Follows-trans h k = ground arith

complete_poll-Follows :
    (s : PollRoutingState) (attempt : RoutingAttempt) (o : Option Outcome)
    → Follows s (complete_poll s attempt o)
unfolding complete_poll
complete_poll-Follows s attempt none = Follows-refl s
complete_poll-Follows s attempt (some o) = complete-Follows s attempt o

pub complete_poll-IsPinned :
    (s : PollRoutingState) (attempt : RoutingAttempt) (o : Option Outcome)
    → IsPinned s
    → IsPinned (complete_poll s attempt o)
unfolding complete_poll
complete_poll-IsPinned s attempt none h = h
complete_poll-IsPinned s attempt (some o) h = complete-IsPinned s attempt o h

poll_sequence-IsPinned_from :
    (s : PollRoutingState) (rs : List (Bool × PollResult))
    → IsPinned s
    → IsPinned (poll_sequence s rs)
unfolding poll_sequence
poll_sequence-IsPinned_from s [] h = h
poll_sequence-IsPinned_from s ((canceled, r) ∷ rs) h =
    poll_sequence-IsPinned_from (complete_poll s (snapshot s) (poll_outcome canceled r)) rs
      (complete_poll-IsPinned s (snapshot s) (poll_outcome canceled r) h)

-- After any sequence of polls from a new client, whatever they answer, the token in use is none
-- or the one accepted for the known revision, and fewer than three failures and corrections are
-- counted.
pub poll_sequence-IsPinned :
    (rs : List (Bool × PollResult)) → IsPinned (poll_sequence new_routing rs)
poll_sequence-IsPinned rs = poll_sequence-IsPinned_from new_routing rs (ground arith)

-- Over any sequence of polls a known revision stays known, never goes back, and as long as it is
-- the same its accepted token is the same.
pub poll_sequence-Follows :
    (s : PollRoutingState) (rs : List (Bool × PollResult)) → Follows s (poll_sequence s rs)
unfolding poll_sequence
poll_sequence-Follows s [] = Follows-refl s
poll_sequence-Follows s ((canceled, r) ∷ rs) =
    Follows-trans (complete_poll-Follows s (snapshot s) (poll_outcome canceled r))
      (poll_sequence-Follows (complete_poll s (snapshot s) (poll_outcome canceled r)) rs)
