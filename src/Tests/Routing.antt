-- ===== src/Tests/Routing.antt =====
-- A client whose token is refused, corrected and lost.
use tunnel_client.Base.{
  ◌≤◌, ◌≡◌, refl, Bool, true, false, Option, none, some, List, [], ◌∷◌, arith, Bytes, codes, min,
  All, minute, second, Time, max, bytes_eq, trim_space,
}
use tunnel_client.Routing.{
  PollRoutingState, RoutingCorrection, Outcome, PollResult, no_content, decoded, transport_error,
  status_error, new_routing, complete, snapshot, poll_outcome, poll_sequence,
}
use tunnel_client.Routing.Tokens.{IsPinned, Follows, poll_sequence-IsPinned, poll_sequence-Follows}
use tunnel_client.Routing.Fence.{
  Flight, PollStep, Flies, here, next, begin, finish, IsFenced, Flies-IsFenced,
}
use tunnel_client.Routing.Eviction.{lost_evicts, corrections_evict}
use tunnel_client.Routing.Parse.{parsed, parse_routing_correction, Fields}
use tunnel_client.Routing.Parse.Sound.{IsAccepted, parse_routing_correction_sound}
use tunnel_client.RetryAfter.{parse_retry_after, retry_delay}
use tunnel_client.RetryAfter.Bounds.{asked, parse_retry_after_delay, retry_delay-parse_retry_after}

abbrev first_correction : RoutingCorrection
first_correction = record { shard_token = codes "t1"; policy_revision = 5 }

abbrev rival_correction : RoutingCorrection
rival_correction = record { shard_token = codes "t2"; policy_revision = 5 }

abbrev refused_poll : RoutingCorrection → Bool × PollResult
refused_poll c = (false, status_error 409 (some c) false)

abbrev history : List (Bool × PollResult)
history =
    refused_poll first_correction
    ∷ (false, decoded)
    ∷ refused_poll rival_correction
    ∷ (false, no_content)
    ∷ []

history_end : (poll_sequence new_routing history).accepted_token ≡ codes "t1"
unfolding poll_sequence bytes_eq
history_end = refl

history_token : (poll_sequence new_routing history).token ≡ []
unfolding poll_sequence bytes_eq
history_token = refl

poll_sequence-IsPinned_example : IsPinned (poll_sequence new_routing history)
poll_sequence-IsPinned_example = poll_sequence-IsPinned history

poll_sequence-Follows_example : Follows new_routing (poll_sequence new_routing history)
poll_sequence-Follows_example = poll_sequence-Follows new_routing history

abbrev pinned_state : PollRoutingState
pinned_state = record {
  generation = 7;
  token = codes "t1";
  revision = 5;
  known = true;
  accepted_token = codes "t1";
  failures = 1;
  corrections = 1;
}

pinned_state-IsPinned : IsPinned pinned_state
pinned_state-IsPinned = ground arith

abbrev losses : List (Bool × PollResult)
losses =
    (false, transport_error)
    ∷ (false, status_error 503 none false)
    ∷ (false, status_error 400 none true)
    ∷ []

lost_evicts_example : (poll_sequence pinned_state losses).token ≡ []
lost_evicts_example =
    lost_evicts pinned_state losses pinned_state-IsPinned
      (unfold poll_outcome in (refl, (refl, (refl, tt)))) (omega arith)

abbrev bounces : List (Bool × PollResult)
bounces = refused_poll rival_correction ∷ refused_poll first_correction ∷ []

corrections_evict_example : (poll_sequence pinned_state bounces).token ≡ []
corrections_evict_example =
    corrections_evict pinned_state bounces pinned_state-IsPinned
      (unfold poll_outcome in
        ((rival_correction, false, refl), ((first_correction, false, refl), tt)))
      (omega arith) (omega arith)

abbrev success : Outcome
success = record { correction = none; available = true; failed_destination = false }

abbrev failure : Outcome
failure = record { correction = none; available = false; failed_destination = true }

abbrev start : Flight
start = record { state = new_routing; inflight = [] }

abbrev two_polls : Flight
two_polls = record {
  state = new_routing;
  inflight = snapshot new_routing ∷ snapshot new_routing ∷ [];
}

abbrev one_done : Flight
one_done = record {
  state = complete new_routing (snapshot new_routing) success;
  inflight = snapshot new_routing ∷ [];
}

one_done_step : PollStep two_polls one_done
one_done_step =
    finish [] (snapshot new_routing ∷ []) (snapshot new_routing) success refl (omega arith)

one_done_reached : Flies start one_done
one_done_reached = next (next (next here begin) begin) one_done_step

Flies-IsFenced_example : All (IsFenced one_done.state) one_done.inflight
Flies-IsFenced_example = Flies-IsFenced new_routing one_done one_done_reached

-- A decoder that knows the three texts of the test.
abbrev members : Bytes → Option Fields
members (_ ∷ []) =
    some ((codes "code", codes "wrong_cluster") ∷ (codes "policy_revision", codes "42") ∷ [])
members _ = some ((codes "error", codes "e") ∷ (codes "other", codes "1") ∷ [])

abbrev string_value : Bytes → Option Bytes
string_value s = some s

abbrev parsed_correction : RoutingCorrection
parsed_correction = record { shard_token = codes "tok"; policy_revision = 42 }

parses :
    parse_routing_correction members string_value (codes "tok" ∷ []) (codes "{}")
    ≡ parsed (some parsed_correction)
unfolding parse_routing_correction
parses = refl

parse_routing_correction_sound_example : IsAccepted (codes "tok" ∷ []) parsed_correction
parse_routing_correction_sound_example =
    parse_routing_correction_sound members string_value (codes "tok" ∷ []) (codes "{}")
      parsed_correction parses

abbrev envelope : Fields
envelope = (codes "error", codes "e") ∷ (codes "other", codes "1") ∷ []

abbrev no_dates : Bytes → Option Time
no_dates _ = none

retry_seconds : parse_retry_after no_dates (codes " 90 ") 0 ≡ (minute, true)
unfolding parse_retry_after
retry_seconds = refl

parse_retry_after_delay_example :
    (parse_retry_after no_dates (codes "17") 0).0
    ≡ min (asked no_dates (trim_space (codes "17")) 0) minute
parse_retry_after_delay_example =
    parse_retry_after_delay no_dates (codes "17") 0 (unfold trim_space in refl)

retry_delay-parse_retry_after_example :
    let (wait, has) = parse_retry_after no_dates (codes "17") 0 in
    (retry_delay second wait has ≡ max second wait) × (wait ≤ minute)
retry_delay-parse_retry_after_example = retry_delay-parse_retry_after no_dates (codes "17") 0 second
