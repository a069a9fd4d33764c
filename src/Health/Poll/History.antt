-- ===== src/Health/Poll/History.antt =====
-- What the published state of the polling loop says of its history.
use tunnel_client.Base.{
  ℕ, suc, ◌≡◌, refl, Bool, true, false, List, [], ◌∷◌, arith, min, ltb, Bytes, Time, Duration,
  is_zero, changes, holds, signal, if◌then◌else◌, not,
}
use tunnel_client.Health.{status_ok, degraded, unknown, max_uint64}
use tunnel_client.Health.Poll.{
  PollHealth, new_poll_health, start_attempt, request_limits, succeeded, failed, backpressure_seen,
  stopped_at, snapshot,
}

-- The observations that the loop makes.
pub data PollEvent : Type 0 where
  attempt_at : Time → PollEvent
  limits_set : Duration → Duration → PollEvent
  success_at : Time → PollEvent
  failure_at : Time → Bytes → ℕ → Duration → PollEvent
  full_at : Time → PollEvent
  stop_at : Time → PollEvent

unfoldable pub observe : PollEvent → PollHealth → PollHealth
unfolding start_attempt request_limits succeeded failed backpressure_seen stopped_at
observe (attempt_at now) s = start_attempt now s
observe (limits_set wait deadline) s = request_limits wait deadline s
observe (success_at now) s = succeeded now s
observe (failure_at now category status delay) s = failed now category status delay s
observe (full_at now) s = backpressure_seen now s
observe (stop_at now) s = stopped_at now s

-- The state after a history, newest observation first.
unfoldable pub after : Duration → Duration → List PollEvent → PollHealth
unfolding observe new_poll_health
after wait deadline [] = new_poll_health wait deadline
after wait deadline (e ∷ es) = observe e (after wait deadline es)

-- The failures since the last success.
abbrev pub failures_in_a_row : List PollEvent → ℕ
failures_in_a_row [] = 0
failures_in_a_row (success_at now ∷ es) = 0
failures_in_a_row (failure_at now category status delay ∷ es) = suc (failures_in_a_row es)
failures_in_a_row (_ ∷ es) = failures_in_a_row es

-- Some poll has succeeded, at an instant other than the zero one.
abbrev pub has_success : List PollEvent → Bool
has_success [] = false
has_success (success_at now ∷ es) = not (is_zero now)
has_success (_ ∷ es) = has_success es

module _ (wait deadline : Duration) where
  failures-after :
      (es : List PollEvent)
      → (after wait deadline es).failures ≡ min (failures_in_a_row es) max_uint64
  unfolding after
  failures-after [] = omega arith
  failures-after (attempt_at now ∷ es) = failures-after es
  failures-after (limits_set w d ∷ es) = failures-after es
  failures-after (success_at now ∷ es) = omega arith
  failures-after (failure_at now category status delay ∷ es) = ground (arith, failures-after es)
  failures-after (full_at now ∷ es) = failures-after es
  failures-after (stop_at now ∷ es) = failures-after es

  success-after :
      (es : List PollEvent) → is_zero (after wait deadline es).last_success ≡ not (has_success es)
  unfolding after
  success-after [] = refl
  success-after (attempt_at now ∷ es) = success-after es
  success-after (limits_set w d ∷ es) = success-after es
  success-after (success_at now ∷ es) = ground arith
  success-after (failure_at now category status delay ∷ es) = success-after es
  success-after (full_at now ∷ es) = success-after es
  success-after (stop_at now ∷ es) = success-after es

-- The published status is degraded exactly while the last completed poll failed; otherwise it is
-- ok once a poll has succeeded, and unknown before.
pub snapshot-after :
    (wait deadline : Duration) (es : List PollEvent) (now : Time)
    → (snapshot now (after wait deadline es)).status ≡ (
        if ltb 0 (failures_in_a_row es)
        then degraded
        else (if has_success es then status_ok else unknown))
unfolding snapshot
snapshot-after wait deadline es now =
    ground (arith, failures-after wait deadline es, success-after wait deadline es)

-- Whatever is observed next closes the channel that a watcher took before its snapshot.
pub observe-changes :
    (e : PollEvent) (s : PollHealth)
    → let (c, n) = changes s.notifier in
      holds c (observe e (record s { notifier = n })).notifier.closed ≡ true
unfolding observe changes signal
observe-changes (attempt_at now) s = ground arith
observe-changes (limits_set w d) s = ground arith
observe-changes (success_at now) s = ground arith
observe-changes (failure_at now category status delay) s = ground arith
observe-changes (full_at now) s = ground arith
observe-changes (stop_at now) s = ground arith
