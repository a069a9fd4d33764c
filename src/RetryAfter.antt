-- ===== src/RetryAfter.antt =====
-- Server hints and retry delays: pkg/controlplane/internal/retry_after.go. `http.ParseTime` is a
-- parameter that gives the instant of an HTTP date.
pub mod Bounds
use tunnel_client.Base.{
  ℕ, ◌*◌, ◌-◌, Bool, true, false, not, ◌&&◌, ◌||◌, Option, none, some, ltb, leb, ◌==◌,
  if◌then◌else◌, Bytes, is_empty, trim_space, all_digits, parse_uint, Time, Duration, second,
  minute,
}

abbrev pub max_retry_after_delay : Duration
max_retry_after_delay = minute

unfoldable pub is_decimal_digits : Bytes → Bool
unfolding all_digits
is_decimal_digits value = all_digits value && not (is_empty value)

-- A number that does not fit is as large as the cap.
unfoldable pub seconds_hint : Option ℕ → Duration × Bool
seconds_hint none = (max_retry_after_delay, true)
seconds_hint (some seconds) =
    if ltb 60 seconds then (max_retry_after_delay, true) else (seconds * second, true)

unfoldable pub date_hint : Option Time → Time → Duration × Bool
date_hint none now = (0, false)
date_hint (some retry_at) now =
    if leb retry_at now
    then (0, false)
    else if ltb max_retry_after_delay (retry_at - now)
    then (max_retry_after_delay, true)
    else (retry_at - now, true)

unfoldable pub hint : (Bytes → Option Time) → Bytes → Time → Duration × Bool
unfolding is_decimal_digits seconds_hint date_hint parse_uint
hint parse_time value now =
    if is_empty value
    then (0, false)
    else if is_decimal_digits value
    then seconds_hint (parse_uint value)
    else date_hint (parse_time value) now

unfoldable pub parse_retry_after : (Bytes → Option Time) → Bytes → Time → Duration × Bool
unfolding hint trim_space
parse_retry_after parse_time value now = hint parse_time (trim_space value) now

unfoldable pub retry_delay : Duration → Duration → Bool → Duration
retry_delay backoff_delay retry_after has_retry_after =
    if has_retry_after && ltb backoff_delay retry_after then retry_after else backoff_delay

-- `sleepWithContext` for a delay during which the context may end.
unfoldable pub sleep_with_context : (done_before done_during : Bool) → Duration → Bool
sleep_with_context done_before done_during delay =
    if delay == 0 then not done_before else not (done_before || done_during)
