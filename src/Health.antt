-- ===== src/Health.antt =====
-- Snapshots of component health: pkg/healthstate, and the helpers of the components in
-- pkg/controlplane/health.go. Durations stay in nanoseconds where the source reports seconds as
-- a float, and the utilization of a queue stays a pair of numbers.
pub mod Poll
pub mod Delivery
pub mod Queue
use tunnel_client.Base.{
  ℕ, ◌+◌, ◌-◌, Bool, Option, none, some, ltb, ◌||◌, if◌then◌else◌, Bytes, Time, Duration, is_zero,
  since_until,
}

pub data Status : Type 0 where
  status_ok degraded unknown disabled : Status

abbrev pub max_uint64 : ℕ
max_uint64 = 18446744073709551615

-- `increment`: a counter stops at its largest value.
unfoldable pub increment : ℕ → ℕ
increment n = if ltb n max_uint64 then n + 1 else n

unfoldable pub timestamp : Time → Option Time
timestamp value = if is_zero value then none else some value

unfoldable pub elapsed : Time → Time → Duration
elapsed now since = if is_zero since || ltb now since then 0 else since_until since now

pub record PollingDetails : Type 0 where
  pub last_attempt : Option Time
  pub last_success : Option Time
  pub last_error : Option Time
  pub consecutive_failures : ℕ
  pub current_poll_age : Duration
  pub configured_wait : Duration
  pub effective_wait : Duration
  pub deadline : Duration
  pub next_retry : Option Time
  pub failure_category : Bytes
  pub http_status : ℕ

pub record DeliveryDetails : Type 0 where
  pub in_progress : ℕ
  pub last_accepted : Option Time
  pub last_completed : Option Time
  pub last_failure : Option Time
  pub disposition : Bytes
  pub failure_category : Bytes
  pub http_status : ℕ
  pub attempts : ℕ
  pub retries : ℕ
  pub accepted : ℕ
  pub completed : ℕ
  pub terminal_failures : ℕ

pub record QueueDetails : Type 0 where
  pub depth : ℕ
  pub capacity : ℕ
  pub last_enqueue : Option Time
  pub last_dequeue : Option Time
  pub enqueued : ℕ
  pub dequeued : ℕ
  pub backpressure : Duration

pub record DispatcherDetails : Type 0 where
  pub active : ℕ
  pub pool_limit : ℕ
  pub last_start : Option Time
  pub last_completion : Option Time
  pub oldest_active_age : Duration
  pub completed : ℕ
  pub failures : ℕ
  pub timeouts : ℕ
  pub accepting : Bool

-- The snapshot shapes that a component may publish.
pub data Details : Type 0 where
  no_details : Details
  polling_details : PollingDetails → Details
  delivery_details : DeliveryDetails → Details
  queue_details : QueueDetails → Details
  dispatcher_details : DispatcherDetails → Details
  oauth_details : (discovery_complete : Bool) → Details
  cloudflared_details : (enabled ready : Bool) → Details

pub record ComponentSnapshot : Type 0 where
  pub status : Status
  pub state : Bytes
  pub reason_code : Bytes
  pub observed_at : Option Time
  pub limited : Bool
  pub details : Details
