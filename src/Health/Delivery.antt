-- ===== src/Health/Delivery.antt =====
-- `DeliveryHealth` of pkg/controlplane/health.go: logical deliveries, apart from their attempts.
pub mod History
use tunnel_client.Base.{
  ℕ, ◌+◌, ◌-◌, Bool, true, false, not, ◌&&◌, ◌||◌, Option, none, some, ltb, if◌then◌else◌, [],
  Bytes, bytes_eq, is_empty, codes, Time, zero_time, Notifier, no_notifier, signal,
}
use tunnel_client.Health.{
  Status, status_ok, degraded, unknown, ComponentSnapshot, DeliveryDetails, delivery_details,
  increment, timestamp,
}

pub data Disposition : Type 0 where
  not_observed failed canceled accepted already_fulfilled : Disposition

abbrev pub disposition_name : Disposition → Bytes
disposition_name not_observed = codes "not_observed"
disposition_name failed = codes "failed"
disposition_name canceled = codes "canceled"
disposition_name accepted = codes "accepted"
disposition_name already_fulfilled = codes "already_fulfilled_or_unknown"

-- The details of the snapshot, with the disposition as one of the five that are used.
pub record DeliveryHealth : Type 0 where
  pub notifier : Notifier
  pub observed_at : Time
  pub in_progress : ℕ
  pub last_accepted : Option Time
  pub last_completed : Option Time
  pub last_failure : Option Time
  pub disposition : Disposition
  pub failure_category : Bytes
  pub http_status : ℕ
  pub attempts : ℕ
  pub retries : ℕ
  pub accepted_count : ℕ
  pub completed : ℕ
  pub terminal_failures : ℕ

abbrev pub new_delivery_health : DeliveryHealth
new_delivery_health = record {
  notifier = no_notifier;
  observed_at = zero_time;
  in_progress = 0;
  last_accepted = none;
  last_completed = none;
  last_failure = none;
  disposition = not_observed;
  failure_category = [];
  http_status = 0;
  attempts = 0;
  retries = 0;
  accepted_count = 0;
  completed = 0;
  terminal_failures = 0;
}

unfoldable pub begin : DeliveryHealth → DeliveryHealth
unfolding signal increment
begin s = record s { notifier = signal s.notifier; in_progress = increment s.in_progress }

unfoldable pub attempt : Bool → DeliveryHealth → DeliveryHealth
unfolding signal increment
attempt retry s = record s {
  notifier = signal s.notifier;
  attempts = increment s.attempts;
  retries = if retry then increment s.retries else s.retries;
}

unfoldable pub attempt_failed : Time → Bytes → ℕ → DeliveryHealth → DeliveryHealth
unfolding signal timestamp
attempt_failed now category status s = record s {
  notifier = signal s.notifier;
  last_failure = timestamp now;
  failure_category = category;
  http_status = status;
  observed_at = now;
}

-- The counters by which a delivery ends.
unfoldable pub count_end : Time → Disposition → DeliveryHealth → DeliveryHealth
unfolding increment timestamp
count_end now failed s = record s {
  terminal_failures = increment s.terminal_failures;
  last_failure = timestamp now;
}
count_end now canceled s = s
count_end now accepted s = record s {
  completed = increment s.completed;
  accepted_count = increment s.accepted_count;
  last_accepted = timestamp now;
}
count_end now _ s = record s { completed = increment s.completed }

unfoldable pub finish : Time → Disposition → Bytes → ℕ → DeliveryHealth → DeliveryHealth
unfolding signal timestamp count_end
finish now disposition category status s = count_end now disposition (record s {
  notifier = signal s.notifier;
  in_progress = if ltb 0 s.in_progress then s.in_progress - 1 else s.in_progress;
  observed_at = now;
  last_completed = timestamp now;
  disposition = disposition;
  failure_category = category;
  http_status = status;
})

abbrev pub is_failed : Disposition → Bool
is_failed failed = true
is_failed _ = false

unfoldable pub snapshot : DeliveryHealth → ComponentSnapshot
unfolding timestamp bytes_eq
snapshot s = record {
  status =
      if (not (is_empty s.failure_category) && not (bytes_eq s.failure_category (codes "canceled")))
        || is_failed s.disposition
      then degraded
      else (if ltb 0 s.completed then status_ok else unknown);
  state = if ltb 0 s.in_progress then codes "uploading" else disposition_name s.disposition;
  reason_code = s.failure_category;
  observed_at = timestamp s.observed_at;
  limited = false;
  details = delivery_details (record {
    in_progress = s.in_progress;
    last_accepted = s.last_accepted;
    last_completed = s.last_completed;
    last_failure = s.last_failure;
    disposition = disposition_name s.disposition;
    failure_category = s.failure_category;
    http_status = s.http_status;
    attempts = s.attempts;
    retries = s.retries;
    accepted = s.accepted_count;
    completed = s.completed;
    terminal_failures = s.terminal_failures;
  });
}
