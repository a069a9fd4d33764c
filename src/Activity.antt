-- ===== src/Activity.antt =====
-- What the dispatcher observes of the work in flight: pkg/dispatcher/internal/health.go. Each
-- method holds the lock: it is one step. A slot of the source that is -1 is `none`.
pub mod Slots
pub mod Tracking
use tunnel_client.Base.{
  ℕ, zero, suc, ◌+◌, ◌-◌, ◌/◌, Bool, true, false, not, ◌&&◌, ◌||◌, Option, none, some, List, [],
  ◌∷◌, ltb, leb, ◌==◌, max, if◌then◌else◌, Bytes, codes, bytes_eq, Time, Duration, zero_time,
  is_zero, since_until, length, set, replicate, Notifier, no_notifier, signal, is_some, map,
}
use tunnel_client.Health.{
  status_ok, degraded, unknown, Status, ComponentSnapshot, DispatcherDetails, dispatcher_details,
  increment, timestamp,
}
use tunnel_client.ErrorView.{ErrorView}

-- The outcome of one call of the processor.
pub record WorkOutcome : Type 0 where
  pub failed : Bool
  pub timed_out : Bool

abbrev is_network_timeout : Option Bool → Bool
is_network_timeout (some true) = true
is_network_timeout _ = false

-- `cause_deadline`: whether the context's cause is the deadline of the response or of the
-- connection.
abbrev pub is_work_timeout : ErrorView → (cause_deadline : Bool) → (status : ℕ) → Bool
is_work_timeout err cause_deadline status =
    (err.is_deadline || (cause_deadline || (status == 408 || status == 504)))
    || is_network_timeout err.network_timeout

unfoldable pub record_work_failure :
    ErrorView → (cause_deadline : Bool) → (status : ℕ) → WorkOutcome → WorkOutcome
record_work_failure err cause_deadline status outcome =
    if err.is_canceled && not (is_work_timeout err cause_deadline status) then outcome else record {
      failed = true;
      timed_out = outcome.timed_out || is_work_timeout err cause_deadline status;
    }

pub record ActivityHealth : Type 0 where
  pub starts : List Time
  pub active : ℕ
  pub pool_limit : ℕ
  pub last_start : Option Time
  pub last_completion : Option Time
  pub completed : ℕ
  pub failures : ℕ
  pub timeouts : ℕ
  pub accepting : Bool
  pub state : Bytes
  pub limited : Bool
  pub notifier : Notifier
  pub last_failed : Bool

-- No configured limit, and one of 0 or less, stand for 1.
abbrev limit_of : Option ℕ → ℕ
limit_of none = 1
limit_of (some n) = if ltb 0 n then n else 1

abbrev pub max_slots : ℕ
max_slots = 1024

unfoldable pub new_activity_health : Option ℕ → ActivityHealth
new_activity_health configured =
    let limit = limit_of configured in
    record {
      starts = replicate (if ltb limit max_slots then limit + 1 else max_slots) zero_time;
      active = 0;
      pool_limit = limit;
      last_start = none;
      last_completion = none;
      completed = 0;
      failures = 0;
      timeouts = 0;
      accepting = false;
      state = codes "starting";
      limited = leb max_slots limit;
      notifier = no_notifier;
      last_failed = false;
    }

unfoldable pub set_accepting : Bool → ActivityHealth → ActivityHealth
unfolding signal
set_accepting accepting s = record s {
  notifier = signal s.notifier;
  accepting = accepting;
  state = if accepting then codes "accepting" else codes "draining";
}

unfoldable pub stopped : ActivityHealth → ActivityHealth
unfolding signal
stopped s = record s { notifier = signal s.notifier; state = codes "stopped"; accepting = false }

abbrev pub next_slot : Option ℕ → Option ℕ
next_slot none = none
next_slot (some i) = some (suc i)

-- The first slot that is free.
unfoldable pub free_slot : List Time → Option ℕ
free_slot [] = none
free_slot (t ∷ ts) = let rest = free_slot ts in if is_zero t then some 0 else next_slot rest

abbrev pub claim : Time → Option ℕ → ActivityHealth → ActivityHealth
claim now none s = record s { limited = true }
claim now (some i) s = record s { starts = set s.starts i now }

-- What `begin` sets whether or not there is a free slot.
abbrev pub begun : Time → ActivityHealth → ActivityHealth
begun now s = record s {
  notifier = signal s.notifier;
  active = increment s.active;
  last_start = timestamp now;
}

unfoldable pub begin : Time → ActivityHealth → Option ℕ × ActivityHealth
unfolding signal increment timestamp free_slot
begin now s = (free_slot s.starts, claim now (free_slot s.starts) (begun now s))

abbrev pub clear : Option ℕ → List Time → List Time
clear none ts = ts
clear (some i) ts = set ts i zero_time

unfoldable pub finish : Option ℕ → Time → (failed timeout : Bool) → ActivityHealth → ActivityHealth
unfolding signal increment timestamp
finish slot now failed timeout s = record s {
  notifier = signal s.notifier;
  starts = clear slot s.starts;
  active = if ltb 0 s.active then s.active - 1 else s.active;
  completed = increment s.completed;
  failures = if failed then increment s.failures else s.failures;
  timeouts = if timeout then increment s.timeouts else s.timeouts;
  last_completion = timestamp now;
  last_failed = failed;
}

-- The greatest age of the starts, 0 if there is none before now.
unfoldable pub oldest_age : Time → List Time → Duration
oldest_age now [] = 0
oldest_age now (t ∷ ts) =
    let rest = oldest_age now ts in
    if not (is_zero t) && ltb t now then max (since_until t now) rest else rest

abbrev later : Option Time → Option Time → Option Time
later start none = start
later none (some completion) = some completion
later (some start) (some completion) = if ltb start completion then some completion else some start

unfoldable pub snapshot : Time → ActivityHealth → ComponentSnapshot
unfolding oldest_age bytes_eq
snapshot now s = record {
  status =
      if s.last_failed
      then degraded
      else (if bytes_eq s.state (codes "starting") then unknown else status_ok);
  state = s.state;
  reason_code = [];
  observed_at = later s.last_start s.last_completion;
  limited = s.limited;
  details = dispatcher_details (record {
    active = s.active;
    pool_limit = s.pool_limit;
    last_start = s.last_start;
    last_completion = s.last_completion;
    oldest_active_age = oldest_age now s.starts;
    completed = s.completed;
    failures = s.failures;
    timeouts = s.timeouts;
    accepting = s.accepting;
  });
}
