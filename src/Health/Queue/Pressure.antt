-- ===== src/Health/Queue/Pressure.antt =====
-- The time that the queue was full.
use tunnel_client.Base.{
  ℕ, ◌+◌, ◌-◌, ◌≤◌, ◌<◌, ◌≡◌, refl, true, false, List, [], ◌∷◌, arith, min, All, Time, max_duration,
}
use tunnel_client.Health.Queue.{QueueHealth, backpressure}

-- An interval of backpressure, with the observations inside it that repeat its start.
abbrev pub Interval : Type 0
Interval = Time × List Time × Time

abbrev pub IsInterval : Interval → Type 0
IsInterval i = (0 < i.0) × (i.0 ≤ i.2)

unfoldable pub restart : List Time → QueueHealth → QueueHealth
unfolding backpressure
restart [] s = s
restart (t ∷ ts) s = restart ts (backpressure t true s)

unfoldable pub press : List Interval → QueueHealth → QueueHealth
unfolding backpressure restart
press [] s = s
press ((start, repeats, end) ∷ is) s =
    press is (backpressure end false (restart repeats (backpressure start true s)))

abbrev pub total : List Interval → ℕ
total [] = 0
total ((start, repeats, end) ∷ is) = (end - start) + total is

restart_lem :
    (ts : List Time) (s : QueueHealth)
    → 0 < s.pressure_start
    → ((restart ts s).pressure_start ≡ s.pressure_start) × ((restart ts s).pressure ≡ s.pressure)
unfolding restart backpressure
restart_lem [] s h = (refl, refl)
restart_lem (t ∷ ts) s h = ground (arith, restart_lem ts (backpressure t true s))

close_lem :
    (s : QueueHealth) (end : Time)
    → 0 < s.pressure_start
    → s.pressure ≤ max_duration
    → ((backpressure end false s).pressure_start ≡ 0)
      × ((backpressure end false s).pressure
          ≡ min (s.pressure + (end - s.pressure_start)) max_duration)
unfolding backpressure
close_lem s end h b = ground arith

open_lem :
    (s : QueueHealth) (start : Time)
    → s.pressure_start ≡ 0
    → ((backpressure start true s).pressure_start ≡ start)
      × ((backpressure start true s).pressure ≡ s.pressure)
unfolding backpressure
open_lem s start h = ground arith

-- Intervals of backpressure that follow one another add up, to the largest duration at most;
-- observing the pressure again inside an interval does not move its start.
pub press-total :
    (is : List Interval) (s : QueueHealth)
    → All IsInterval is
    → s.pressure_start ≡ 0
    → s.pressure ≤ max_duration
    → (press is s).pressure ≡ min (s.pressure + total is) max_duration
unfolding press
press-total [] s h z b = omega (arith, b)
press-total ((start, repeats, end) ∷ is) s h z b =
    let opened = backpressure start true s in
    let o = open_lem s start z in
    let r = restart_lem repeats opened (omega (arith, o, h.0)) in
    let c =
      close_lem (restart repeats opened) end (omega (arith, o, r, h.0)) (omega (arith, o, r)) in
    omega (
      arith,
      o,
      r,
      c,
      h.0,
      press-total is (backpressure end false (restart repeats opened)) h.1 c.0 (omega (arith, c)),
    )
