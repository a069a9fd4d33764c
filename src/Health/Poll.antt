-- ===== src/Health/Poll.antt =====
-- `PollHealth` of pkg/controlplane/health.go: observations of the polling loop.
pub mod History
use tunnel_client.Base.{
  [], ℕ, ◌+◌, Bool, true, false, not, Option, none, some, ltb, if◌then◌else◌, Bytes, codes, Time,
  Duration, zero_time, is_zero, Notifier, no_notifier, signal,
}
use tunnel_client.Health.{
  Status, status_ok, degraded, unknown, ComponentSnapshot, polling_details, increment, timestamp,
  elapsed,
}

pub data PollPhase : Type 0 where
  starting polling idle backoff backpressured stopped : PollPhase

abbrev pub phase_name : PollPhase → Bytes
phase_name starting = codes "starting"
phase_name polling = codes "polling"
phase_name idle = codes "idle"
phase_name backoff = codes "backoff"
phase_name backpressured = codes "backpressured"
phase_name stopped = codes "stopped"

pub record PollHealth : Type 0 where
  pub notifier : Notifier
  pub phase : PollPhase
  pub last_attempt : Time
  pub last_success : Time
  pub last_error : Time
  pub next_retry : Time
  pub observed_at : Time
  pub failures : ℕ
  pub configured_wait : Duration
  pub effective_wait : Duration
  pub deadline : Duration
  pub category : Bytes
  pub http_status : ℕ

-- `NewPollHealth` on the configured wait and deadline.
unfoldable pub new_poll_health : Duration → Duration → PollHealth
new_poll_health wait deadline = record {
  notifier = no_notifier;
  phase = starting;
  last_attempt = zero_time;
  last_success = zero_time;
  last_error = zero_time;
  next_retry = zero_time;
  observed_at = zero_time;
  failures = 0;
  configured_wait = wait;
  effective_wait = wait;
  deadline = deadline;
  category = [];
  http_status = 0;
}

unfoldable pub start_attempt : Time → PollHealth → PollHealth
unfolding signal
start_attempt now s = record s {
  notifier = signal s.notifier;
  phase = polling;
  last_attempt = now;
  observed_at = now;
  next_retry = zero_time;
}

unfoldable pub request_limits : Duration → Duration → PollHealth → PollHealth
unfolding signal
request_limits wait deadline s = record s {
  notifier = signal s.notifier;
  effective_wait = wait;
  deadline = deadline;
}

unfoldable pub succeeded : Time → PollHealth → PollHealth
unfolding signal
succeeded now s = record s {
  notifier = signal s.notifier;
  last_success = now;
  observed_at = now;
  failures = 0;
  category = [];
  http_status = 0;
  phase = idle;
  next_retry = zero_time;
}

unfoldable pub failed : Time → Bytes → ℕ → Duration → PollHealth → PollHealth
unfolding signal increment
failed now category status delay s = record s {
  notifier = signal s.notifier;
  failures = increment s.failures;
  phase = backoff;
  last_error = now;
  observed_at = now;
  category = category;
  http_status = status;
  next_retry = now + delay;
}

unfoldable pub backpressure_seen : Time → PollHealth → PollHealth
unfolding signal
backpressure_seen now s = record s {
  notifier = signal s.notifier;
  phase = backpressured;
  observed_at = now;
}

unfoldable pub stopped_at : Time → PollHealth → PollHealth
unfolding signal
stopped_at now s = record s {
  notifier = signal s.notifier;
  phase = stopped;
  observed_at = now;
  next_retry = zero_time;
}

abbrev poll_age : PollPhase → Time → Time → Duration
poll_age polling now last = elapsed now last
poll_age _ now last = 0

unfoldable pub snapshot : Time → PollHealth → ComponentSnapshot
unfolding timestamp elapsed
snapshot now s = record {
  status =
      if ltb 0 s.failures
      then degraded
      else (if not (is_zero s.last_success) then status_ok else unknown);
  state = phase_name s.phase;
  reason_code = s.category;
  observed_at = timestamp s.observed_at;
  limited = false;
  details = polling_details (record {
    last_attempt = timestamp s.last_attempt;
    last_success = timestamp s.last_success;
    last_error = timestamp s.last_error;
    consecutive_failures = s.failures;
    current_poll_age = poll_age s.phase now s.last_attempt;
    configured_wait = s.configured_wait;
    effective_wait = s.effective_wait;
    deadline = s.deadline;
    next_retry = timestamp s.next_retry;
    failure_category = s.category;
    http_status = s.http_status;
  });
}
