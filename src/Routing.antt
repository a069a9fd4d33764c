-- ===== src/Routing.antt =====
-- The placement state of the polling client: pkg/controlplane/internal/routing.go, and how
-- `Poll` in tunnel_service_client.go turns an answer into a completion of that state.
pub mod Parse
pub mod Tokens
pub mod Fence
pub mod Eviction
use tunnel_client.Base.{
  ℕ, ◌+◌, ◌%◌, Bool, true, false, not, ◌&&◌, ◌||◌, Option, none, some, List, [], ◌∷◌, ltb, leb,
  ◌==◌, if◌then◌else◌, Bytes, bytes_eq, is_empty,
}

abbrev pub max_routing_failures : ℕ
max_routing_failures = 3

abbrev pub u64 : ℕ → ℕ
u64 n = n % 18446744073709551616

pub record RoutingCorrection : Type 0 where
  pub shard_token : Bytes
  pub policy_revision : ℕ

-- The mutex makes every method one step. `generation` and `revision` are uint64.
pub record PollRoutingState : Type 0 where
  pub generation : ℕ
  pub token : Bytes
  pub revision : ℕ
  pub known : Bool
  pub accepted_token : Bytes
  pub failures : ℕ
  pub corrections : ℕ

pub record RoutingAttempt : Type 0 where
  pub generation : ℕ
  pub token : Bytes

-- The zero value, with which a client starts.
abbrev pub new_routing : PollRoutingState
new_routing = record {
  generation = 0;
  token = [];
  revision = 0;
  known = false;
  accepted_token = [];
  failures = 0;
  corrections = 0;
}

unfoldable pub snapshot : PollRoutingState → RoutingAttempt
snapshot s = record { generation = s.generation; token = s.token }

-- The inner switch on the revision of a correction.
unfoldable pub adopt : PollRoutingState → RoutingCorrection → PollRoutingState
adopt s c =
    if not s.known || ltb s.revision c.policy_revision
    then record s {
      known = true;
      revision = c.policy_revision;
      accepted_token = c.shard_token;
      token = c.shard_token;
    }
    else if c.policy_revision == s.revision
    then (if bytes_eq c.shard_token s.accepted_token
        then record s { token = c.shard_token }
        else record s { token = [] })
    else s

unfoldable pub limit_corrections : PollRoutingState → PollRoutingState
limit_corrections s =
    if leb max_routing_failures s.corrections then record s { token = []; corrections = 0 } else s

unfoldable pub limit_failures : PollRoutingState → PollRoutingState
limit_failures s =
    if leb max_routing_failures s.failures then record s { token = []; failures = 0 } else s

-- What a finished poll reports to the routing state.
pub record Outcome : Type 0 where
  pub correction : Option RoutingCorrection
  pub available : Bool
  pub failed_destination : Bool

abbrev pub has_correction : Option RoutingCorrection → Bool
has_correction none = false
has_correction (some _) = true

-- The outer switch, on a state whose generation was advanced.
unfoldable pub apply_outcome :
    PollRoutingState → Bytes → Option RoutingCorrection → Bool → Bool → PollRoutingState
unfolding adopt limit_corrections limit_failures
apply_outcome s attempt_token correction true failed = record s { failures = 0; corrections = 0 }
apply_outcome s attempt_token (some c) false failed =
    limit_corrections (adopt (record s { failures = 0; corrections = s.corrections + 1 }) c)
apply_outcome s attempt_token none false failed =
    if failed && not (is_empty attempt_token)
    then limit_failures (record s { failures = s.failures + 1 })
    else s

abbrev pub is_bearing : Outcome → Bool
is_bearing o = has_correction o.correction || (o.available || o.failed_destination)

unfoldable pub complete : PollRoutingState → RoutingAttempt → Outcome → PollRoutingState
unfolding apply_outcome
complete s attempt o =
    if not (is_bearing o)
    then s
    else if not (attempt.generation == s.generation)
    then s
    else apply_outcome (record s { generation = u64 (s.generation + 1) }) attempt.token o.correction
        o.available o.failed_destination

-- What the HTTP exchange of one poll came to. A status error carries the parsed correction and
-- whether its body was lost, as `pollStatusError` returns them.
pub data PollResult : Type 0 where
  transport_error : PollResult
  no_content : PollResult
  decoded : PollResult
  undecoded : (lost_connection : Bool) → PollResult
  status_error : (status : ℕ) → Option RoutingCorrection → (failed_body : Bool) → PollResult

abbrev completion : Option RoutingCorrection → Bool → Bool → Option Outcome
completion c a f = some (record { correction = c; available = a; failed_destination = f })

-- The calls of `routing.complete` in `Poll`; `none` where it returns without one.
unfoldable pub poll_outcome : (canceled : Bool) → PollResult → Option Outcome
poll_outcome canceled transport_error = completion none false (not canceled)
poll_outcome canceled no_content = completion none true false
poll_outcome canceled decoded = completion none true false
poll_outcome canceled (undecoded lost) = if canceled then none else completion none false lost
poll_outcome canceled (status_error status correction failed_body) =
    if canceled
    then none
    else completion correction false
        (failed_body || (status == 408 || (leb 500 status && leb status 599)))

unfoldable pub complete_poll : PollRoutingState → RoutingAttempt → Option Outcome → PollRoutingState
unfolding complete
complete_poll s attempt none = s
complete_poll s attempt (some o) = complete s attempt o

-- One poll after the other, each on the snapshot that it starts from.
unfoldable pub poll_sequence : PollRoutingState → List (Bool × PollResult) → PollRoutingState
unfolding complete_poll poll_outcome snapshot
poll_sequence s [] = s
poll_sequence s ((canceled, r) ∷ rs) =
    poll_sequence (complete_poll s (snapshot s) (poll_outcome canceled r)) rs
