-- ===== src/Health/Queue.antt =====
-- `QueueHealth` of pkg/controlplane/health.go: the command buffer, seen without its contents.
pub mod Pressure
use tunnel_client.Base.{
  ℕ, ◌+◌, ◌-◌, Bool, true, false, not, ◌&&◌, ◌||◌, Option, none, some, ltb, ◌==◌, if◌then◌else◌, [],
  Bytes, codes, Time, Duration, zero_time, is_zero, since_until, max_duration, Notifier,
  no_notifier, signal,
}
use tunnel_client.Health.{
  status_ok, ComponentSnapshot, queue_details, increment, timestamp, elapsed,
}

pub record QueueHealth : Type 0 where
  pub notifier : Notifier
  pub last_enqueue : Time
  pub last_dequeue : Time
  pub pressure_start : Time
  pub enqueued : ℕ
  pub dequeued : ℕ
  pub pressure : Duration

abbrev pub new_queue_health : QueueHealth
new_queue_health = record {
  notifier = no_notifier;
  last_enqueue = zero_time;
  last_dequeue = zero_time;
  pressure_start = zero_time;
  enqueued = 0;
  dequeued = 0;
  pressure = 0;
}

unfoldable pub enqueue_seen : Time → QueueHealth → QueueHealth
unfolding signal increment
enqueue_seen now s = record s {
  notifier = signal s.notifier;
  last_enqueue = now;
  enqueued = increment s.enqueued;
}

unfoldable pub dequeue_seen : Time → QueueHealth → QueueHealth
unfolding signal increment
dequeue_seen now s = record s {
  notifier = signal s.notifier;
  last_dequeue = now;
  dequeued = increment s.dequeued;
}

-- The sum of two durations, stopped at the largest one.
unfoldable pub add_pressure : Duration → Duration → Duration
add_pressure pressure delta =
    if ltb 0 delta
    then (if ltb (max_duration - pressure) delta then max_duration else pressure + delta)
    else pressure

unfoldable pub backpressure : Time → Bool → QueueHealth → QueueHealth
unfolding signal add_pressure
backpressure now true s =
    if is_zero s.pressure_start
    then record s { notifier = signal s.notifier; pressure_start = now }
    else record s { notifier = signal s.notifier }
backpressure now false s =
    if is_zero s.pressure_start then record s { notifier = signal s.notifier } else record s {
      notifier = signal s.notifier;
      pressure = add_pressure s.pressure (since_until s.pressure_start now);
      pressure_start = zero_time;
    }

-- `depth` and `capacity` are the length and capacity of the channel at this instant.
unfoldable pub snapshot : (depth capacity : ℕ) → Time → QueueHealth → ComponentSnapshot
unfolding timestamp elapsed
snapshot depth capacity now s = record {
  status = status_ok;
  state =
      if (ltb 0 capacity && depth == capacity) || not (is_zero s.pressure_start)
      then codes "backpressured"
      else codes "available";
  reason_code = [];
  observed_at =
      timestamp (if ltb s.last_enqueue s.last_dequeue then s.last_dequeue else s.last_enqueue);
  limited = false;
  details = queue_details (record {
    depth = depth;
    capacity = capacity;
    last_enqueue = timestamp s.last_enqueue;
    last_dequeue = timestamp s.last_dequeue;
    enqueued = s.enqueued;
    dequeued = s.dequeued;
    backpressure = s.pressure + elapsed now s.pressure_start;
  });
}
