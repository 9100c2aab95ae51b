-- ===== src/Edge/Aws/Metrics/Window.antt =====
-- internal/edge/awsexec/cloudwatch_metrics.go: the bounds of a query's time and resolution.
use skybridge.Prelude.{
  ℕ, ◌+◌, ◌-◌, ◌*◌, ◌/◌, ◌≤◌, ◌<◌, ◌≡◌, refl, ◌⊎◌, inl, inr, arith, Option, none, some,
}
use skybridge.Prelude.Int.{ℤ, pos, negsuc, clamp_int}
use skybridge.Edge.Aws.{second}
use skybridge.Edge.Aws.Metrics.{
  minutes_or, period_for_range, at_least_minute, window_end, metrics_time_window, Range,
  metrics_range,
}

minutes_or_bounds : (asked : Option ℤ) → (1 ≤ minutes_or asked) × (minutes_or asked ≤ 1440)
unfolding minutes_or clamp_int
minutes_or_bounds none = (omega arith, omega arith)
minutes_or_bounds (some (negsuc v)) = (omega arith, omega arith)
minutes_or_bounds (some (pos v)) = ground arith

period_for_range_bounds :
    (q m : ℕ)
    → 86400 ≤ q
    → 1 ≤ m
    → m ≤ 1440
    → let period = period_for_range (q - m * 60) q in
      ((period ≡ 60) ⊎ (period ≡ 300) × (60 < m)) × (m * 60 ≤ 288 * period)
unfolding period_for_range
period_for_range_bounds q m day lo hi = ground arith

window_end_bounds :
    (now q m period : ℕ)
    → 86400 ≤ q
    → q * second ≤ now
    → 1 ≤ m
    → m ≤ 1440
    → ((period ≡ 60) ⊎ (period ≡ 300) × (60 < m))
    → let window = metrics_time_window now (q - m * 60) q period in
      (window.0 < window.1)
      × (window.1 ≤ now)
      × (window.1 ≤ q * second)
      × (3 ≤ m → window.1 + 120 * second ≤ now)
unfolding metrics_time_window window_end at_least_minute
window_end_bounds now q m period day late lo hi p = ground arith

-- The window of a call is sound: its length is the minutes asked for, kept within a day.
pub record IsSound (clock now : ℕ) (r : Range) : Type 0 where
  pub minutes_ge : 1 ≤ r.minutes
  pub minutes_le : r.minutes ≤ 1440
  pub start : r.start_time ≡ (clock / second - r.minutes * 60) * second
  pub order : r.start_time < r.end_time
  pub past : r.end_time ≤ now
  pub settled : 3 ≤ r.minutes → r.end_time + 120 * second ≤ now
  pub period : (r.period ≡ 60) ⊎ (r.period ≡ 300)
  pub points : r.end_time ≤ r.start_time + 288 * (r.period * second)

-- Whatever number of minutes a call asks for, or none: the window of its query starts at most a day
-- before the call and ends after it starts and not in the future, for a call of at least three
-- minutes not in the last two minutes; the period is one or five minutes, and every series has at
-- most 288 points. The clock stands past the first day of 1970 and does not go back.
pub metrics_range-IsSound :
    (clock now : ℕ) (asked : Option ℤ)
    → 86400 * second ≤ clock
    → clock ≤ now
    → IsSound clock now (metrics_range clock now asked)
unfolding metrics_range
metrics_range-IsSound clock now asked day order =
    let m = minutes_or asked in
    let q = clock / second in
    let (lo, hi) = minutes_or_bounds asked in
    let past_day : 86400 ≤ q = omega arith in
    let late : q * second ≤ now = omega arith in
    let (period, points) = period_for_range_bounds q m past_day lo hi in
    let p = period_for_range (q - m * 60) q in
    let (before, past, ended, settled) = window_end_bounds now q m p past_day late lo hi period in
    record {
      minutes_ge = lo;
      minutes_le = hi;
      start = refl;
      order = before;
      past = past;
      settled = settled;
      period = elim period [ inl e ↦ inl e | inr (e, _) ↦ inr e ];
      points = omega arith;
    }
