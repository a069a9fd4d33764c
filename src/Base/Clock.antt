-- ===== src/Base/Clock.antt =====
-- Instants and durations of the `time` package, in nanoseconds. An instant is counted from the
-- zero `time.Time`, so `IsZero` is a comparison with 0. A duration that the code only keeps or
-- compares when it is positive is a number: the difference of instants stops at 0.
use Prim.Native.Nat.{ℕ, ◌-◌, min}
use mathlib.Core.Bool.{Bool}
use tunnel_client.Base.Tests.{◌==◌}

abbrev pub Time : Type 0
Time = ℕ

abbrev pub Duration : Type 0
Duration = ℕ

abbrev pub zero_time : Time
zero_time = 0

abbrev pub is_zero : Time → Bool
is_zero t = t == 0

abbrev pub max_duration : ℕ
max_duration = 9223372036854775807

abbrev pub millisecond : ℕ
millisecond = 1000000

abbrev pub second : ℕ
second = 1000000000

abbrev pub minute : ℕ
minute = 60000000000

-- `now.Sub(since)` saturates at the largest int64; negative differences are 0 here.
abbrev pub since_until : Time → Time → Duration
since_until start now = min (now - start) max_duration
