-- ===== src/Edge/Aws/Metrics.antt =====
-- internal/edge/awsexec/cloudwatch_metrics.go: which metrics a call asks for, and over which time.
-- Instants are nanoseconds since 1970, on a clock past its first day; `start` and `end` are seconds.
pub mod Window
use skybridge.Prelude.{
  ℕ, ◌+◌, ◌-◌, ◌*◌, ◌/◌, Bool, true, false, not, ◌&&◌, ◌||◌, Option, none, some, List, [], ◌∷◌,
  ◌++◌, map, Bytes, Result, ok, err, if◌then◌else◌, ltb, leb, bytes_equal,
}
use skybridge.Prelude.Int.{ℤ, clamp_int}
use skybridge.Prelude.Dict.{Dict}
use skybridge.Prelude.Text.{codes, Unicode, trim_space, lower_byte}
use skybridge.Edge.Dispatch.{Json}
use skybridge.Edge.Aws.{Numbers, str_arg, int_arg, second}

abbrev pub metrics_default_lookback_min : ℕ
metrics_default_lookback_min = 60

abbrev pub metrics_max_lookback_min : ℕ
metrics_max_lookback_min = 1440

unfoldable pub minutes_or : Option ℤ → ℕ
unfolding clamp_int
minutes_or none = metrics_default_lookback_min
minutes_or (some v) = clamp_int v 1 metrics_max_lookback_min

-- `end - start` is 0 where it would be negative, as the code sets it.
unfoldable pub period_for_range : ℕ → ℕ → ℕ
period_for_range start end =
    if leb (end - start) 3600 then 60 else if leb (end - start) (86400 * 2) then 300 else 900

-- Not before a minute, in nanoseconds.
unfoldable pub at_least_minute : ℕ → ℕ
at_least_minute period = (if ltb period 60 then 60 else period) * second

unfoldable pub window_end : ℕ → ℕ → ℕ → ℕ
unfolding at_least_minute
window_end start_t end_t period =
    if leb end_t start_t then start_t + at_least_minute period else end_t

-- `now` is the instant at which the window is made.
unfoldable pub metrics_time_window : ℕ → ℕ → ℕ → ℕ → ℕ × ℕ
unfolding window_end
metrics_time_window now start end period =
    let start_t = start * second in
    let end_t = end * second in
    let latest_ok = now - 120 * second in
    (start_t, window_end start_t (if ltb latest_ok end_t then latest_ok else end_t) period)

-- What a call for some minutes before `clock` asks for, if its window is made at `now`.
pub record Range : Type 0 where
  pub minutes : ℕ
  pub period : ℕ
  pub start_time : ℕ
  pub end_time : ℕ

unfoldable pub metrics_range : ℕ → ℕ → Option ℤ → Range
unfolding minutes_or period_for_range metrics_time_window
metrics_range clock now asked =
    let minutes = minutes_or asked in
    let end = clock / second in
    let start = end - minutes * 60 in
    let period = period_for_range start end in
    let window = metrics_time_window now start end period in
    record { minutes = minutes; period = period; start_time = window.0; end_time = window.1 }

pub record MetricQuery : Type 0 where
  pub id : Bytes
  pub namespace : Bytes
  pub metric_name : Bytes
  pub dimensions : List (Bytes × Bytes)
  pub period : ℕ
  pub stat : Bytes

pub record IdLabel : Type 0 where
  pub id : Bytes
  pub label : Bytes

pub record MetricSpec : Type 0 where
  pub id : Bytes
  pub metric_name : Bytes
  pub stat : Bytes
  pub label : Bytes

-- The period is one of `period_for_range`, which an int32 holds.
unfoldable pub build_query : Bytes → List (Bytes × Bytes) → ℕ → MetricSpec → MetricQuery
build_query namespace dims period s = record {
  id = s.id;
  namespace = namespace;
  metric_name = s.metric_name;
  dimensions = dims;
  period = period;
  stat = s.stat;
}

abbrev pub Queries : Type 0
Queries = List MetricQuery × List IdLabel

unfoldable pub build_queries : Bytes → List (Bytes × Bytes) → ℕ → List MetricSpec → Queries
unfolding build_query
build_queries namespace dims period specs = (
  map (build_query namespace dims period) specs,
  map (λ s. record { id = s.id; label = s.label }) specs,
)

-- What a call names, each without the space around it.
pub record Selection : Type 0 where
  pub alb : Bytes
  pub ecs_cluster : Bytes
  pub ecs_service : Bytes
  pub cf_id : Bytes
  pub ec2_id : Bytes

unfoldable pub selection : {N : Type 0} → Unicode → Dict (Json N) → Selection
unfolding str_arg
selection u args = record {
  alb = trim_space u (str_arg args (codes "alb_load_balancer"));
  ecs_cluster = trim_space u (str_arg args (codes "ecs_cluster"));
  ecs_service = trim_space u (str_arg args (codes "ecs_service"));
  cf_id = trim_space u (str_arg args (codes "cloudfront_distribution_id"));
  ec2_id = trim_space u (str_arg args (codes "ec2_instance_id"));
}

abbrev pub is_empty : Bytes → Bool
is_empty [] = true
is_empty (b ∷ bs) = false

-- `strings.EqualFold` with "__all__", whose letters fold to no letter beyond ASCII.
unfoldable pub all_services : Selection → Bool
unfolding lower_byte bytes_equal
all_services sel = bytes_equal (map lower_byte sel.ecs_service) (codes "__all__")

unfoldable pub has_ecs : Selection → Bool
has_ecs sel = not (is_empty sel.ecs_cluster) && not (is_empty sel.ecs_service)

unfoldable pub check_selection : Selection → Result Bytes Unit
unfolding has_ecs
check_selection sel =
    if is_empty sel.alb && not (has_ecs sel) && is_empty sel.cf_id && is_empty sel.ec2_id
    then err (
        codes
          "Provide alb_load_balancer, ecs_cluster+ecs_service, cloudfront_distribution_id, or ec2_instance_id.")
    else if not (is_empty sel.ecs_cluster) && is_empty sel.ecs_service
        || not (is_empty sel.ecs_service) && is_empty sel.ecs_cluster
    then err (codes "ecs_cluster and ecs_service must both be set.")
    else ok tt
