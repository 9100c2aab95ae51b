-- ===== src/Tests/Edge/Aws.antt =====
-- The theorems on the edge's AWS tools at concrete inputs.
use skybridge.Prelude.{
  ℕ, zero, suc, ◌+◌, ◌*◌, ◌/◌, ◌≤◌, ◌<◌, ◌≡◌, refl, arith, false, none, some, List, [], ◌∷◌, Bytes,
  Result, ok, if◌then◌else◌, bytes_equal, ltb,
}
use skybridge.Prelude.Int.{pos}
use skybridge.Prelude.Dict.{Dict, get}
use skybridge.Prelude.Text.{codes, contains, has_prefix, to_lower, trim_space}
use skybridge.Edge.Policy.{split_command}
use skybridge.Edge.Policy.Shlex.{shlex_split}
use skybridge.Edge.Dispatch.{Json, text}
use skybridge.Edge.Aws.{Options, Sdk, Credentials, second}
use skybridge.Edge.Aws.Cli.{Execution, cli_plan}
use skybridge.Edge.Aws.Cli.Scoped.{IsSafe, cli_plan-IsSafe}
use skybridge.Edge.Aws.Metrics.{metrics_range}
use skybridge.Edge.Aws.Metrics.Window.{IsSound, metrics_range-IsSound}
use skybridge.Edge.Aws.Series.{Row, tasks_id, tasks_avg_id, last_row, merge_ecs_running_task_series}
use skybridge.Edge.Aws.Series.Tasks.{ids, remove, tasks_row, merge_ecs_running_task_series-shows}
use skybridge.Edge.Aws.Logs.{
  complete, running, QueryResults, Poll, completed, after_answer, after_poll, poll_step, poll_loop,
  wait_time,
}
use skybridge.Edge.Aws.Logs.Polling.{IsTicking, poll_loop-completed}
use skybridge.Tests.{ascii}

-- An edge that assumes a role.
abbrev role : Credentials
role = record {
  access_key_id = codes "AKIA";
  secret_access_key = codes "s";
  session_token = codes "t";
}

abbrev sdk : Sdk
sdk = record {
  Config = Unit {0};
  load_default = λ region. ok tt;
  assume_role = λ arn name external cfg. cfg;
  retrieve = λ cfg. ok role;
}

abbrev options : Options
options = record {
  region = codes "eu-west-1";
  assume_role_arn = codes "arn";
  external_id = [];
  aws_binary = codes "aws";
  cli_timeout = pos 30;
  max_stdout = pos 6000;
  max_stderr = pos 2000;
  logs_poll_every = pos 1;
  logs_max_wait = pos 30;
  max_rows = pos 60;
}

abbrev arguments : Dict (Json ℕ)
arguments = (codes "command", text (codes "aws ec2 describe-instances")) ∷ []

abbrev environ : List Bytes
environ = codes "AWS_PROFILE=prod" ∷ codes "HOME=/root" ∷ []

abbrev describe_run : Execution
describe_run = record {
  binary = codes "aws";
  argv = codes "ec2" ∷ codes "describe-instances" ∷ [];
  env =
      codes "HOME=/root"
      ∷ codes "AWS_DEFAULT_REGION=eu-west-1"
      ∷ codes "AWS_REGION=eu-west-1"
      ∷ codes "AWS_ACCESS_KEY_ID=AKIA"
      ∷ codes "AWS_SECRET_ACCESS_KEY=s"
      ∷ codes "AWS_SESSION_TOKEN=t"
      ∷ [];
  timeout = pos 30;
}

describe_planned : cli_plan ascii sdk environ options arguments ≡ ok describe_run
unfolding cli_plan split_command shlex_split trim_space to_lower contains has_prefix bytes_equal get
describe_planned = refl

cli_plan-IsSafe_example : IsSafe ascii sdk options arguments describe_run
cli_plan-IsSafe_example =
    cli_plan-IsSafe ascii sdk environ options arguments describe_run describe_planned

-- Two hours before a time in 2023, the window made half a second later.
metrics_range-IsSound_example :
    IsSound
      (1_700_000_000 * second)
      (1_700_000_000 * second + 500)
      (metrics_range (1_700_000_000 * second) (1_700_000_000 * second + 500) (some (pos 120)))
metrics_range-IsSound_example =
    metrics_range-IsSound (1_700_000_000 * second) (1_700_000_000 * second + 500) (some (pos 120))
      (omega arith) (omega arith)

abbrev tasks : List (Row ℕ ℕ)
tasks =
    record {
      id = tasks_id;
      label = codes "ECS running tasks";
      status_code = none;
      messages = none;
      datapoints = [];
    }
    ∷ record {
      id = tasks_avg_id;
      label = codes "avg";
      status_code = some (codes "Complete");
      messages = none;
      datapoints = (5, 2) ∷ [];
    }
    ∷ []

merge_ecs_running_task_series-shows_example :
    let out = merge_ecs_running_task_series tasks in
    (ids out ≡ remove tasks_avg_id (ids tasks))
    × (last_row tasks_id out ≡ (
        if bytes_equal tasks_avg_id tasks_id
        then none
        else if bytes_equal tasks_id tasks_id
        then tasks_row (last_row tasks_id tasks) (last_row tasks_avg_id tasks)
        else last_row tasks_id tasks))
merge_ecs_running_task_series-shows_example = merge_ecs_running_task_series-shows tasks tasks_id

-- A query that completes in the third round, on a clock that passes on by two each round.
abbrev rows : QueryResults
rows = record { status = complete; rows = ((codes "f", codes "v") ∷ []) ∷ [] }

answer_at : ℕ → Result Bytes QueryResults
answer_at n = if ltb n 2 then ok (record { status = running; rows = [] }) else ok rows

polls : ℕ → Poll
unfolding answer_at
polls n = record { answer = answer_at n; now = n * 2; is_cancelled = false }

wait_le : (every r : ℕ) → wait_time every 10 r ≤ every
unfolding wait_time
wait_le every r = ground arith

polls-IsTicking : IsTicking 1 (0 + 10) polls
unfolding polls
polls-IsTicking = record {
  passes = λ n. omega arith;
  waits = λ n. omega (arith, wait_le 1 (n * 2));
}

two_running : (j : ℕ) → j < 2 → poll_step 10 (polls j) ≡ none
unfolding poll_step after_poll after_answer polls answer_at
two_running zero h = refl
two_running (suc zero) h = refl
two_running (suc (suc j)) h = absurd (omega arith)

third_answers : (polls 2).answer ≡ ok rows
unfolding polls answer_at
third_answers = refl

poll_loop-completed_example :
    poll_loop polls (0 + 10) (10 / 1 + 3) 0 ≡ some (completed (((codes "f", codes "v") ∷ []) ∷ []))
poll_loop-completed_example =
    poll_loop-completed polls 1 10 0 2 rows (omega arith) (omega arith) polls-IsTicking two_running
      third_answers refl
