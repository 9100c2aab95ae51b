-- ===== src/Edge/Aws/MetricsCall.antt =====
-- internal/edge/awsexec/cloudwatch_metrics.go: the whole call of the metrics tool. The clock and the
-- answers of AWS are parameters.
use skybridge.Prelude.{
  ℕ, true, not, ◌&&◌, Option, none, some, List, [], ◌∷◌, ◌++◌, map, Bytes, Result, ok, err,
  if◌then◌else◌,
}
use skybridge.Prelude.Int.{pos}
use skybridge.Prelude.Dict.{Dict}
use skybridge.Prelude.Text.{codes, Unicode, trim_space}
use skybridge.Edge.Dispatch.{
  Json, null, boolean, number, text, array, object, members_of, error_result,
}
use skybridge.Edge.Aws.{Options, Sdk, Numbers, load_config, str_arg, int_arg, or_text}
use skybridge.Edge.Aws.Metrics.{
  MetricQuery, IdLabel, Selection, selection, all_services, has_ecs, check_selection, Range,
  metrics_range,
}
use skybridge.Edge.Aws.Queries.{metric_queries}
use skybridge.Edge.Aws.Series.{
  Message, MetricResult, Page, Row, get_metric_data_paginated, metric_results_to_series,
  merge_ecs_running_task_series,
}
use skybridge.Edge.Aws.Snapshot.{EcsApi, items_of, run_ecs_service_snapshot}

-- The answers of GetMetricData to some
-- queries over a window, for the n-th request and its token; and ECS.
pub record MetricsApi (T V : Type 0) : Type 0 where
  pub get_metric_data : List MetricQuery → ℕ → ℕ → ℕ → Option Bytes → Result Bytes (Page T V)
  pub ecs : EcsApi T

module _ (n : Numbers) {T : Type 0} (stamp : T → n.Number) where
  -- `stamp` is `float64(t.UnixNano()) / 1e9`.
  unfoldable pub point_row : T × n.Number → Dict (Json n.Number)
  point_row (t, v) = (codes "t", number (stamp t)) ∷ (codes "v", number v) ∷ []

  unfoldable pub message_row : Message → Dict (Json n.Number)
  message_row m = (codes "code", text m.code) ∷ (codes "value", text m.value) ∷ []

  unfoldable pub status_field : Option Bytes → Dict (Json n.Number)
  status_field none = []
  status_field (some s) = (codes "status_code", text s) ∷ []

  unfoldable pub messages_field : Option (List Message) → Dict (Json n.Number)
  unfolding message_row items_of
  messages_field none = []
  messages_field (some ms) = (codes "messages", array (items_of n (map message_row ms))) ∷ []

  unfoldable pub row_object : Row T n.Number → Dict (Json n.Number)
  unfolding point_row status_field messages_field items_of
  row_object r =
      ((codes "id", text r.id) ∷ (codes "label", text r.label) ∷ [])
      ++ (status_field r.status_code
          ++ (messages_field r.messages
              ++ ((codes "datapoints", array (items_of n (map point_row r.datapoints))) ∷ [])))

  abbrev pub metrics_tool : Bytes
  metrics_tool = codes "cloudwatch_metrics"

  unfoldable pub counts_value : Option (Dict (Json n.Number)) → Json n.Number
  unfolding members_of
  counts_value none = null
  counts_value (some snap) = object (members_of snap)

  -- The snapshot of a single service, of whatever the configuration reaches.
  unfoldable pub service_counts : Unicode → MetricsApi T n.Number → Selection → Json n.Number
  unfolding counts_value run_ecs_service_snapshot has_ecs all_services
  service_counts u api sel =
      if has_ecs sel && not (all_services sel)
      then counts_value (run_ecs_service_snapshot n api.ecs u sel.ecs_cluster sel.ecs_service)
      else null

  unfoldable pub metrics_result :
      Bytes → Range → List (Row T n.Number) → Json n.Number → Dict (Json n.Number)
  unfolding row_object items_of
  metrics_result region r series counts =
      (codes "ok", boolean true)
      ∷ (codes "tool", text metrics_tool)
      ∷ (codes "minutes", number (n.of_int (pos r.minutes)))
      ∷ (codes "region", text region)
      ∷ (codes "period_seconds", number (n.of_int (pos r.period)))
      ∷ (codes "series", array (items_of n (map row_object series)))
      ∷ (
        codes "note",
        text (
            codes
              "Read-only CloudWatch GetMetricData over the requested window, executed at the edge."),
      )
      ∷ (codes "ecs_service_counts", counts)
      ∷ []

  unfoldable pub metrics_answer :
      Unicode
      → MetricsApi T n.Number
      → Selection
      → Bytes
      → Range
      → List IdLabel
      → Result Bytes (List (MetricResult T n.Number))
      → Dict (Json n.Number)
  unfolding metrics_result service_counts metric_results_to_series merge_ecs_running_task_series
      error_result
  metrics_answer u api sel region r labels (err msg) =
      error_result metrics_tool (codes "GetMetricData failed: " ++ msg)
  metrics_answer u api sel region r labels (ok raw) =
      metrics_result region r (merge_ecs_running_task_series (metric_results_to_series labels raw))
        (service_counts u api sel)

  -- What is asked of AWS for a selection that is complete. `none` means that the fuel ran out.
  unfoldable pub query_metrics :
      Unicode
      → MetricsApi T n.Number
      → Selection
      → Bytes
      → Range
      → ℕ
      → Option (Dict (Json n.Number))
  unfolding metrics_answer metric_queries get_metric_data_paginated
  query_metrics u api sel region r fuel =
      let (queries, labels) = metric_queries sel r.period in
      elim (get_metric_data_paginated (api.get_metric_data queries r.start_time r.end_time) fuel) [
        | none ↦ none
        | some raw ↦ some (metrics_answer u api sel region r labels raw)
      ]

  unfoldable pub cloud_watch_metrics :
      Unicode
      → (s : Sdk) → (s.Config → MetricsApi T n.Number)
      → ℕ
      → ℕ
      → Options
      → Dict (Json n.Number)
      → ℕ
      → Option (Dict (Json n.Number))
  unfolding query_metrics selection check_selection metrics_range int_arg str_arg or_text
      load_config error_result
  cloud_watch_metrics u s client clock now o args fuel = elim (check_selection (selection u args)) [
    | err msg ↦ some (error_result metrics_tool msg)
    | ok complete ↦
        let region = or_text (trim_space u (str_arg args (codes "region"))) o.region in
        elim (load_config s o region) [
          | err msg ↦
              some (error_result metrics_tool (codes "credential resolution failed: " ++ msg))
          | ok cfg ↦
              query_metrics u (client cfg) (selection u args) region
                (metrics_range clock now (int_arg n args (codes "minutes"))) fuel
        ]
  ]
