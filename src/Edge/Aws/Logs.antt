-- ===== src/Edge/Aws/Logs.antt =====
-- internal/edge/awsexec/cloudwatch.go: one query of CloudWatch Logs Insights, polled until it ends. The
-- answers of AWS and the readings of the clock are parameters.
pub mod Polling
use skybridge.Prelude.{
  ℕ, zero, suc, ◌+◌, ◌-◌, ◌*◌, ◌/◌, Bool, true, false, not, Option, none, some, List, [], ◌∷◌, ◌++◌,
  bytes_equal, Bytes, Result, ok, err, if◌then◌else◌, ltb, length,
}
use skybridge.Prelude.Int.{ℤ, pos, negsuc, clamp_int}
use skybridge.Prelude.Dict.{Dict, put, get}
use skybridge.Prelude.Text.{codes}
use skybridge.Edge.Dispatch.{
  Json, boolean, number, text, array, object, Items, no_items, item, members_of, Handler,
  error_result,
}
use skybridge.Edge.Aws.{
  Options, Sdk, Numbers, load_config, str_arg, int_arg, string_list, unless_empty, clip, second,
}
use skybridge.Edge.Aws.Cli.{region_of}

abbrev pub logs_default_lookback_min : ℕ
logs_default_lookback_min = 60

abbrev pub logs_max_lookback_min : ℕ
logs_max_lookback_min = 1440

unfoldable pub logs_minutes : Option ℤ → ℕ
unfolding clamp_int
logs_minutes none = logs_default_lookback_min
logs_minutes (some v) = clamp_int v 1 logs_max_lookback_min

-- The status of a query: complete, one of the three failures with its name, or any other.
pub data Status : Type 0 where
  complete : Status
  failed : Bytes → Status
  running : Status

-- An answer of GetQueryResults: the status, and rows of fields and values.
pub record QueryResults : Type 0 where
  pub status : Status
  pub rows : List (List (Bytes × Bytes))

-- What StartQuery is given; the times are in seconds.
pub record LogsQuery : Type 0 where
  pub groups : List Bytes
  pub query : Bytes
  pub start_time : ℕ
  pub end_time : ℕ
  pub limit : ℤ

-- What one round of the loop meets: the answer to its request, the instant at which it reads the
-- clock, and whether the call was cancelled before the end of its wait.
pub record Poll : Type 0 where
  pub answer : Result Bytes QueryResults
  pub now : ℕ
  pub is_cancelled : Bool

-- How the loop ends.
pub data Ending : Type 0 where
  completed : List (List (Bytes × Bytes)) → Ending
  poll_failed : Bytes → Ending
  not_completed : Bytes → Ending
  timed_out : Ending
  cancelled : Ending

-- What follows a round: its end, or the wait for the next one.
unfoldable pub after_answer : ℕ → Poll → QueryResults → Status → Option Ending
after_answer deadline p out complete = some (completed out.rows)
after_answer deadline p out (failed name) = some (not_completed name)
after_answer deadline p out running =
    if ltb deadline p.now then some timed_out else if p.is_cancelled then some cancelled else none

unfoldable pub after_poll : ℕ → Poll → Result Bytes QueryResults → Option Ending
unfolding after_answer
after_poll deadline p (err msg) = some (poll_failed msg)
after_poll deadline p (ok out) = after_answer deadline p out out.status

unfoldable pub poll_step : ℕ → Poll → Option Ending
unfolding after_poll
poll_step deadline p = after_poll deadline p p.answer

-- The rounds of the loop from the n-th on. `none` means that the fuel ran out.
unfoldable pub poll_loop : (ℕ → Poll) → ℕ → ℕ → ℕ → Option Ending
unfolding poll_step
poll_loop polls deadline zero n = none
poll_loop polls deadline (suc f) n = elim (poll_step deadline (polls n)) [
  | some ended ↦ some ended
  | none ↦ poll_loop polls deadline f (suc n)
]

-- `minDur(every, time.Until(deadline))`: how long a round that reads the clock at `now`, not past the
-- deadline, waits.
unfoldable pub wait_time : ℕ → ℕ → ℕ → ℕ
wait_time every deadline now = if ltb every (deadline - now) then every else deadline - now

module _ (n : Numbers) where
  abbrev num : ℕ → Json n.Number
  num v = number (n.of_int (pos v))

  -- A map of strings; a later field takes the place of an earlier one of its name.
  unfoldable pub row_fields : List (Bytes × Bytes) → Dict (Json n.Number) → Dict (Json n.Number)
  row_fields [] m = m
  row_fields ((field, value) ∷ fs) m = row_fields fs (put field (text value) m)

  unfoldable pub row_items : List (List (Bytes × Bytes)) → Items n.Number
  unfolding row_fields members_of
  row_items [] = no_items
  row_items (row ∷ rows) = item (object (members_of (row_fields row []))) (row_items rows)

  unfoldable pub text_items : List Bytes → Items n.Number
  text_items [] = no_items
  text_items (t ∷ ts) = item (text t) (text_items ts)

  unfoldable pub logs_result :
      Bytes → Bytes → List Bytes → ℕ → List (List (Bytes × Bytes)) → Dict (Json n.Number)
  unfolding row_items text_items clip
  logs_result tool query groups minutes rows =
      (codes "ok", boolean true)
      ∷ (codes "tool", text tool)
      ∷ (codes "query", text (clip query (pos 4000)))
      ∷ (codes "log_groups", array (text_items groups))
      ∷ (codes "minutes", num minutes)
      ∷ (codes "row_count", num (length rows))
      ∷ (codes "results", array (row_items rows))
      ∷ (
        codes "note",
        text (codes "Read-only CloudWatch Logs Insights query executed at the edge; row-capped."),
      )
      ∷ []

  abbrev pub logs_tool : Bytes
  logs_tool = codes "cloudwatch_logs_insights"

  unfoldable pub logs_answer : Bytes → List Bytes → ℕ → Ending → Dict (Json n.Number)
  unfolding logs_result error_result
  logs_answer query groups minutes (completed rows) =
      logs_result logs_tool query groups minutes rows
  logs_answer query groups minutes (poll_failed msg) =
      error_result logs_tool (codes "CloudWatch Logs Insights results failed: " ++ msg)
  logs_answer query groups minutes (not_completed name) =
      error_result logs_tool (codes "query did not complete (status=" ++ (name ++ codes ")"))
  logs_answer query groups minutes timed_out =
      error_result logs_tool (codes "query timed out waiting for results at the edge")
  logs_answer query groups minutes cancelled = error_result logs_tool (codes "context cancelled")

  unfoldable pub log_groups : Dict (Json n.Number) → List Bytes
  unfolding string_list str_arg unless_empty
  log_groups args = elim (unless_empty (str_arg args (codes "log_group"))) [
    | none ↦ string_list (get (codes "log_groups") args)
    | some single ↦ string_list (get (codes "log_groups") args) ++ (single ∷ [])
  ]

  -- What a call meets outside: the clock when it begins, the answer to StartQuery (the id of the
  -- query), the clock behind that answer, and the rounds of the loop for an id.
  pub record LogsApi : Type 0 where
    pub clock : ℕ
    pub start_query : LogsQuery → Result Bytes Bytes
    pub started : ℕ
    pub polls : Bytes → ℕ → Poll

  abbrev pub nanoseconds : ℤ → ℕ
  nanoseconds (pos v) = v
  nanoseconds (negsuc v) = 0

  abbrev pub logs_query : LogsApi → Options → Bytes → List Bytes → ℕ → LogsQuery
  logs_query api o query groups minutes =
      let end = api.clock / second in
      record {
        groups = groups;
        query = clip query (pos 4000);
        start_time = end - minutes * 60;
        end_time = end;
        limit = o.max_rows;
      }

  -- The options have their defaults, so that the longest wait is positive.
  unfoldable pub query_and_poll :
      LogsApi → Options → Bytes → List Bytes → ℕ → ℕ → Option (Dict (Json n.Number))
  unfolding logs_answer poll_loop error_result clip
  query_and_poll api o query groups minutes fuel =
      elim (api.start_query (logs_query api o query groups minutes)) [
        | err msg ↦
            some (error_result logs_tool (codes "CloudWatch Logs Insights start failed: " ++ msg))
        | ok id ↦
            elim (poll_loop (api.polls id) (api.started + nanoseconds o.logs_max_wait) fuel 0) [
              | none ↦ none
              | some ended ↦ some (logs_answer query groups minutes ended)
            ]
      ]

  unfoldable pub query_groups :
      LogsApi → Options → Dict (Json n.Number) → List Bytes → ℕ → Option (Dict (Json n.Number))
  unfolding query_and_poll logs_minutes int_arg str_arg error_result
  query_groups api o args [] fuel = some (
      error_result logs_tool (codes "Provide log_groups (one or more CloudWatch log group names)."))
  query_groups api o args (g ∷ groups) fuel =
      query_and_poll api o (str_arg args (codes "query")) (g ∷ groups)
        (logs_minutes (int_arg n args (codes "minutes"))) fuel

  unfoldable pub run_logs_insights :
      LogsApi → Options → Dict (Json n.Number) → ℕ → Option (Dict (Json n.Number))
  unfolding query_groups log_groups str_arg error_result
  run_logs_insights api o args fuel =
      if bytes_equal (str_arg args (codes "query")) []
      then some (error_result logs_tool (codes "Missing required 'query'."))
      else query_groups api o args (log_groups args) fuel

  unfoldable pub cloud_watch_logs_insights :
      (s : Sdk)
      → (s.Config → LogsApi)
      → Options
      → Dict (Json n.Number)
      → ℕ
      → Option (Dict (Json n.Number))
  unfolding run_logs_insights load_config region_of error_result
  cloud_watch_logs_insights s client o args fuel =
      elim (load_config s o (region_of o args (codes "region"))) [
        | err msg ↦ some (error_result logs_tool (codes "credential resolution failed: " ++ msg))
        | ok cfg ↦ run_logs_insights (client cfg) o args fuel
      ]
