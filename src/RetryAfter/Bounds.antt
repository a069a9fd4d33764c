-- ===== src/RetryAfter/Bounds.antt =====
-- The hint of a server is capped, and never shortens a backoff.
use tunnel_client.Base.{
  ℕ, ◌*◌, ◌-◌, ◌≤◌, ◌≡◌, refl, true, false, Option, none, some, arith, min, max, ◌∷◌, [], Bytes,
  trim_space, is_empty, parse_uint, digits_value, Time, Duration, second, minute, if◌then◌else◌,
}
use tunnel_client.RetryAfter.{
  is_decimal_digits, seconds_hint, date_hint, hint, parse_retry_after, retry_delay,
}

-- What the header asks for, without the tests of the parser: seconds, or the time until a date.
abbrev pub asked : (Bytes → Option Time) → Bytes → Time → ℕ
asked parse_time value now =
    if is_decimal_digits value
    then digits_value 0 value * second
    else (elim (parse_time value) [ none ↦ 0 | some t ↦ t - now ])

seconds_hint_lem :
    (v : Bytes)
    → is_decimal_digits v ≡ true
    → seconds_hint (parse_uint v) ≡ (min (digits_value 0 v * second) minute, true)
unfolding is_decimal_digits seconds_hint parse_uint
seconds_hint_lem v h = ground arith

date_hint_lem :
    (o : Option Time) (now : Time)
    → (date_hint o now).0 ≡ min (elim o [ none ↦ 0 | some t ↦ t - now ]) minute
unfolding date_hint
date_hint_lem none now = ground arith
date_hint_lem (some t) now = ground arith

hint_delay :
    (parse_time : Bytes → Option Time) (v : Bytes) (now : Time)
    → is_empty v ≡ false
    → (hint parse_time v now).0 ≡ min (asked parse_time v now) minute
unfolding hint
hint_delay parse_time v now h = ground (arith, seconds_hint_lem v, date_hint_lem (parse_time v) now)

-- For a header that is not blank, the delay is what it asks for, up to one minute: a number of
-- seconds of any length, or the time until a date. A date that has passed or does not parse
-- asks for nothing.
pub parse_retry_after_delay :
    (parse_time : Bytes → Option Time) (v : Bytes) (now : Time)
    → is_empty (trim_space v) ≡ false
    → (parse_retry_after parse_time v now).0 ≡ min (asked parse_time (trim_space v) now) minute
unfolding parse_retry_after
parse_retry_after_delay parse_time v now h = hint_delay parse_time (trim_space v) now h

date_hint-none :
    (o : Option Time) (now : Time) → (date_hint o now).1 ≡ false → (date_hint o now).0 ≡ 0
unfolding date_hint
date_hint-none none now h = refl
date_hint-none (some t) now h = ground arith

hint-none :
    (parse_time : Bytes → Option Time) (v : Bytes) (now : Time)
    → (hint parse_time v now).1 ≡ false
    → (hint parse_time v now).0 ≡ 0
unfolding hint
hint-none parse_time v now h = ground (arith, seconds_hint_lem v, date_hint-none (parse_time v) now)

hint_bounded :
    (parse_time : Bytes → Option Time) (v : Bytes) (now : Time) → (hint parse_time v now).0 ≤ minute
hint_bounded parse_time [] now = unfold hint in omega arith
hint_bounded parse_time (c ∷ v) now = omega (arith, hint_delay parse_time (c ∷ v) now refl)

-- The wait before a retry: never shorter than the backoff or than the hint, and never longer
-- than both the backoff and one minute.
pub retry_delay-parse_retry_after :
    (parse_time : Bytes → Option Time) (v : Bytes) (now : Time) (backoff : Duration)
    → let (wait, has) = parse_retry_after parse_time v now in
      (retry_delay backoff wait has ≡ max backoff wait) × (wait ≤ minute)
unfolding retry_delay parse_retry_after
retry_delay-parse_retry_after parse_time v now backoff =
    ground
      (arith, hint-none parse_time (trim_space v) now, hint_bounded parse_time (trim_space v) now)
