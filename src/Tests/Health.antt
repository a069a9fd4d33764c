-- ===== src/Tests/Health.antt =====
-- Histories of the health components.
use tunnel_client.Base.{
  ◌≡◌, true, false, List, [], ◌∷◌, arith, codes, second, ltb, if◌then◌else◌, changes, holds,
}
use tunnel_client.Health.{degraded, status_ok, unknown}
use tunnel_client.Health.Poll.{PollHealth, new_poll_health}
use tunnel_client.Health.Poll.History.{
  PollEvent, attempt_at, success_at, failure_at, full_at, after, observe, failures_in_a_row,
  has_success, snapshot-after, observe-changes,
}
use tunnel_client.Health.Poll
use tunnel_client.Health.Queue.Pressure.{Interval}
use tunnel_client.Health.Delivery.{accepted, canceled}
use tunnel_client.Health.Delivery.History
use tunnel_client.Health.Delivery.History.{
  DeliveryEvent, begun, tried, try_failed, finished, IsExact, after-IsExact,
}

abbrev poll_history : List PollEvent
poll_history =
    failure_at 40 (codes "timeout") 0 second ∷ attempt_at 30 ∷ success_at 20 ∷ attempt_at 10 ∷ []

snapshot-after_example : (Poll.snapshot 50 (after 1 2 poll_history)).status ≡ (
    if ltb 0 (failures_in_a_row poll_history)
    then degraded
    else (if has_success poll_history then status_ok else unknown))
snapshot-after_example = snapshot-after 1 2 poll_history 50

observe-changes_example :
    let (c, n) = changes (new_poll_health 1 2).notifier in
    holds c (observe (full_at 3) (record (new_poll_health 1 2) { notifier = n })).notifier.closed
    ≡ true
observe-changes_example = observe-changes (full_at 3) (new_poll_health 1 2)

abbrev intervals : List Interval
intervals = (10, 12 ∷ 13 ∷ [], 20) ∷ (30, [], 35) ∷ []

abbrev deliveries : List DeliveryEvent
deliveries =
    finished 9 canceled (codes "canceled") 0
    ∷ finished 8 accepted [] 200
    ∷ tried true
    ∷ try_failed 5 (codes "http_error") 503
    ∷ tried false
    ∷ begun
    ∷ begun
    ∷ []

after-IsExact_example : IsExact deliveries (History.after deliveries)
after-IsExact_example = after-IsExact deliveries (omega arith) (omega arith)
