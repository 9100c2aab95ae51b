-- ===== src/Edge/Aws/Series.antt =====
-- internal/edge/awsexec/cloudwatch_metrics.go: the pages of an answer and the series made of them, over
-- the types of its time stamps and of its values.
pub mod Tasks
pub mod Pages
use skybridge.Prelude.{
  ℕ, zero, suc, Bool, true, false, Option, none, some, List, [], ◌∷◌, ◌++◌, map, Bytes, Result, ok,
  err, if◌then◌else◌, bytes_equal,
}
use skybridge.Prelude.Int.{pos}
use skybridge.Prelude.Text.{codes}
use skybridge.Edge.Aws.{clip, unless_empty}
use skybridge.Edge.Aws.Metrics.{MetricQuery, IdLabel}

-- A message and its code; nil reads as the empty text.
pub record Message : Type 0 where
  pub code : Bytes
  pub value : Bytes

module _ (T V : Type 0) where
  -- One result of GetMetricData; `none` is an id of nil.
  pub record MetricResult : Type 0 where
    pub id : Option Bytes
    pub timestamps : List T
    pub values : List V
    pub status_code : Bytes
    pub messages : List Message

  -- One answer of GetMetricData; `none` is a token of nil.
  pub record Page : Type 0 where
    pub results : List MetricResult
    pub next_token : Option Bytes

  -- A row of the output; `none` is a key that is absent.
  pub record Row : Type 0 where
    pub id : Bytes
    pub label : Bytes
    pub status_code : Option Bytes
    pub messages : Option (List Message)
    pub datapoints : List (T × V)

-- A token that asks for a further page.
unfoldable pub further : Option Bytes → Option Bytes
unfolding unless_empty
further none = none
further (some token) = unless_empty token

unfoldable pub has_id : Option Bytes → Bytes → Bool
has_id none k = false
has_id (some id) k = bytes_equal id k

unfoldable pub clip_message : Message → Message
unfolding clip
clip_message m = record { code = clip m.code (pos 128); value = clip m.value (pos 2000) }

unfoldable pub some_messages : List Message → Option (List Message)
unfolding clip_message
some_messages [] = none
some_messages (m ∷ ms) = some (map clip_message (m ∷ ms))

abbrev pub tasks_id : Bytes
tasks_id = codes "ecs_tasks"

abbrev pub tasks_avg_id : Bytes
tasks_avg_id = codes "ecs_tasks_avg"

unfoldable pub or_else : {A : Type 0} → Option A → Option A → Option A
or_else none d = d
or_else (some a) d = some a

module _ {T V : Type 0} where
  -- `get_metric_data` is the answer to a request with a token, asked after so many others. `none` means
  -- that the fuel ran out.
  unfoldable pub page_loop :
      (ℕ → Option Bytes → Result Bytes (Page T V))
      → ℕ
      → ℕ
      → Option Bytes
      → List (MetricResult T V)
      → Option (Result Bytes (List (MetricResult T V)))
  unfolding further
  page_loop get_metric_data zero n token all = none
  page_loop get_metric_data (suc f) n token all = elim (get_metric_data n token) [
    | err e ↦ some (err e)
    | ok page ↦ elim (further page.next_token) [
      | none ↦ some (ok (all ++ page.results))
      | some next ↦ page_loop get_metric_data f (suc n) (some next) (all ++ page.results)
    ]
  ]

  unfoldable pub get_metric_data_paginated :
      (ℕ → Option Bytes → Result Bytes (Page T V))
      → ℕ
      → Option (Result Bytes (List (MetricResult T V)))
  unfolding page_loop
  get_metric_data_paginated get_metric_data fuel = page_loop get_metric_data fuel 0 none []

  -- The entry of `byID`: the last result with the id.
  unfoldable pub by_id : List (MetricResult T V) → Bytes → Option (MetricResult T V)
  unfolding has_id
  by_id [] k = none
  by_id (r ∷ rs) k = elim (by_id rs k) [
    | some s ↦ some s
    | none ↦ if has_id r.id k then some r else none
  ]

  unfoldable pub zip_points : List T → List V → List (T × V)
  zip_points (t ∷ ts) (v ∷ vs) = (t, v) ∷ zip_points ts vs
  zip_points _ _ = []

  unfoldable pub series_row : IdLabel → Option (MetricResult T V) → Row T V
  unfolding zip_points some_messages unless_empty
  series_row il none = record {
    id = il.id;
    label = il.label;
    status_code = none;
    messages = none;
    datapoints = [];
  }
  series_row il (some r) = record {
    id = il.id;
    label = il.label;
    status_code = unless_empty r.status_code;
    messages = some_messages r.messages;
    datapoints = zip_points r.timestamps r.values;
  }

  unfoldable pub metric_results_to_series : List IdLabel → List (MetricResult T V) → List (Row T V)
  unfolding series_row by_id
  metric_results_to_series labels results = map (λ il. series_row il (by_id results il.id)) labels

  -- The last row with an id, as `main` and `alt` are left by the loop.
  unfoldable pub last_row : Bytes → List (Row T V) → Option (Row T V)
  last_row k [] = none
  last_row k (s ∷ series) = elim (last_row k series) [
    | some t ↦ some t
    | none ↦ if bytes_equal s.id k then some s else none
  ]

  -- `main` with the points of `alt`, where it has none and `alt` has some.
  unfoldable pub fill_row : Row T V → List (T × V) → List (T × V) → Row T V → Row T V
  unfolding or_else
  fill_row main [] (p ∷ ps) alt = record {
    id = main.id;
    label = main.label;
    status_code = or_else main.status_code alt.status_code;
    messages = or_else main.messages alt.messages;
    datapoints = p ∷ ps;
  }
  fill_row main _ _ alt = main

  -- The series after the last row with an id was changed in place.
  unfoldable pub change_last : Bytes → (Row T V → Row T V) → List (Row T V) → List (Row T V)
  unfolding last_row
  change_last k f [] = []
  change_last k f (s ∷ series) =
      let rest = change_last k f series in
      elim (last_row k series) [
        | some t ↦ s ∷ rest
        | none ↦ (if bytes_equal s.id k then f s else s) ∷ series
      ]

  unfoldable pub drop_rows : Bytes → List (Row T V) → List (Row T V)
  drop_rows k [] = []
  drop_rows k (s ∷ series) =
      let rest = drop_rows k series in if bytes_equal s.id k then rest else s ∷ rest

  -- Without a row `ecs_tasks` nothing is changed.
  unfoldable pub merge_ecs_running_task_series : List (Row T V) → List (Row T V)
  unfolding last_row fill_row change_last drop_rows
  merge_ecs_running_task_series series = elim (last_row tasks_avg_id series) [
    | none ↦ drop_rows tasks_avg_id series
    | some alt ↦
        drop_rows tasks_avg_id
          (change_last tasks_id (λ main. fill_row main main.datapoints alt.datapoints alt) series)
  ]
