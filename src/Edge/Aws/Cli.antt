-- ===== src/Edge/Aws/Cli.antt =====
-- internal/edge/awsexec/cli.go: one read-only call of the aws program. The SDK, the environment of the
-- process and the run of the program are parameters.
pub mod Scoped
use skybridge.Prelude.{
  ℕ, zero, suc, Bool, true, false, not, ◌&&◌, ◌||◌, Option, none, some, List, [], ◌∷◌, ◌++◌, Bytes,
  Result, ok, err, if◌then◌else◌, ◌>>=◌, ltb, bytes_equal, length, ◌==◌,
}
use skybridge.Prelude.Int.{ℤ, pos, negsuc}
use skybridge.Prelude.Dict.{Dict}
use skybridge.Prelude.Text.{codes, Unicode}
use skybridge.Edge.Policy.{
  Reason, empty_command, too_long, unbalanced_quote, not_aws, missing_service, missing_operation,
  metacharacter, flag_not_allowed, argument_not_allowed, not_read_only_s3, not_on_allowlist, is_in,
  validate_read_only_aws_command, split_command, max_command_len,
}
use skybridge.Edge.Policy.Shlex.{UnbalancedQuote}
use skybridge.Edge.Dispatch.{Json, boolean, number, text, Handler}
use skybridge.Edge.Aws.{
  Options, Sdk, Credentials, Numbers, load_config, str_arg, or_text, unless_empty, clip,
}

-- The five names that the source drops. The program can read credentials from others.
abbrev pub credential_names : List Bytes
credential_names =
    codes "AWS_ACCESS_KEY_ID"
    ∷ codes "AWS_SECRET_ACCESS_KEY"
    ∷ codes "AWS_SESSION_TOKEN"
    ∷ codes "AWS_PROFILE"
    ∷ codes "AWS_DEFAULT_PROFILE"
    ∷ []

-- `kv[:indexByte(kv, '=')]`, or all of it.
unfoldable pub key_of : Bytes → Bytes
key_of [] = []
key_of (c ∷ cs) = let rest = key_of cs in if c == b'=' then [] else c ∷ rest

unfoldable pub scrub_aws_env : List Bytes → List Bytes
unfolding key_of is_in
scrub_aws_env [] = []
scrub_aws_env (kv ∷ env) =
    let rest = scrub_aws_env env in if is_in (key_of kv) credential_names then rest else kv ∷ rest

unfoldable pub region_env : Bytes → List Bytes
region_env [] = []
region_env (b ∷ bs) =
    (codes "AWS_DEFAULT_REGION=" ++ (b ∷ bs)) ∷ (codes "AWS_REGION=" ++ (b ∷ bs)) ∷ []

unfoldable pub session_env : Bytes → List Bytes
session_env [] = []
session_env (b ∷ bs) = (codes "AWS_SESSION_TOKEN=" ++ (b ∷ bs)) ∷ []

unfoldable pub role_env : Credentials → List Bytes
unfolding session_env
role_env c =
    (codes "AWS_ACCESS_KEY_ID=" ++ c.access_key_id)
    ∷ (codes "AWS_SECRET_ACCESS_KEY=" ++ c.secret_access_key)
    ∷ session_env c.session_token

-- The environment without a role, which the one with a role is added to.
unfoldable pub base_env : List Bytes → Bytes → List Bytes
unfolding scrub_aws_env region_env
base_env environ region = scrub_aws_env environ ++ region_env region

unfoldable pub cli_env : Sdk → List Bytes → Options → Bytes → Result Bytes (List Bytes)
unfolding base_env load_config role_env unless_empty
cli_env s environ o region = elim (unless_empty o.assume_role_arn) [
  | none ↦ ok (base_env environ region)
  | some arn ↦ load_config s o region >>= λ cfg.
      (s.retrieve cfg >>= λ creds. ok (base_env environ region ++ role_env creds))
]

-- What exec.CommandContext is given.
pub record Execution : Type 0 where
  pub binary : Bytes
  pub argv : List Bytes
  pub env : List Bytes
  pub timeout : ℤ

abbrev pub execution : Options → List Bytes → List Bytes → Execution
execution o argv env = record {
  binary = o.aws_binary;
  argv = argv;
  env = env;
  timeout = o.cli_timeout;
}

-- What cmd.Run returns: nil, an *exec.ExitError with its exit code, or another error.
pub data RunError : Type 0 where
  success : RunError
  exit_error : ℤ → RunError
  run_failed : Bytes → RunError

pub record Outcome : Type 0 where
  pub run_error : RunError
  pub timed_out : Bool
  pub stdout : Bytes
  pub stderr : Bytes

-- The argument vector behind `aws`; `none` where the command is no call of it with arguments.
unfoldable pub aws_args : Result UnbalancedQuote (List Bytes) → Option (List Bytes)
unfolding bytes_equal
aws_args (ok (program ∷ (a ∷ args))) =
    if bytes_equal program (codes "aws") then some (a ∷ args) else none
aws_args _ = none

-- The token as %q writes it; a line break by its name.
unfoldable pub token_text : Bytes → Bytes
unfolding bytes_equal
token_text bad =
    if bytes_equal bad (10 ∷ []) || bytes_equal bad (13 ∷ [])
    then codes "newline"
    else if bytes_equal bad (92 ∷ [])
    then 34 ∷ 92 ∷ 92 ∷ 34 ∷ []
    else 34 ∷ (bad ++ (34 ∷ []))

unfoldable pub reason_text : Reason → Bytes
unfolding token_text
reason_text empty_command = codes "empty command"
reason_text too_long = codes "command exceeds 1200 characters"
reason_text unbalanced_quote = codes "could not parse command: unbalanced quote"
reason_text not_aws = codes "only 'aws' commands are permitted"
reason_text missing_service = codes "missing AWS service (e.g. ec2, rds, s3)"
reason_text missing_operation = codes "missing AWS operation"
reason_text (metacharacter bad) = codes "shell metacharacter not allowed: " ++ token_text bad
reason_text (flag_not_allowed flag) = codes "flag not allowed: " ++ flag
reason_text (argument_not_allowed arg) = codes "argument not allowed: " ++ arg
reason_text (not_read_only_s3 operation) =
    codes "'aws s3 "
    ++ (operation ++ codes "' is not read-only (use 'aws s3 ls' or 's3api' read calls)")
reason_text (not_on_allowlist operation) =
    codes "operation '" ++ (operation ++ codes "' is not on the read-only allowlist")

abbrev cli_tool : Bytes
cli_tool = codes "aws_readonly_cli"

-- The region that a call names, or the edge's own.
unfoldable pub region_of : {N : Type 0} → Options → Dict (Json N) → Bytes → Bytes
unfolding str_arg or_text
region_of o args key = or_text (str_arg args key) o.region

module _ {N : Type 0} where
  unfoldable pub cli_error : Bytes → Bytes → Dict (Json N)
  unfolding clip
  cli_error command msg =
      (codes "ok", boolean false)
      ∷ (codes "tool", text cli_tool)
      ∷ (codes "command", text (clip command (pos 500)))
      ∷ (codes "error", text msg)
      ∷ []

  -- What is run, or the result of a call that is refused before anything is run.
  unfoldable pub cli_plan :
      Unicode → Sdk → List Bytes → Options → Dict (Json N) → Result (Dict (Json N)) Execution
  unfolding str_arg region_of validate_read_only_aws_command split_command aws_args cli_env
      reason_text cli_error
  cli_plan u s environ o args =
      let command = str_arg args (codes "command") in
      elim (validate_read_only_aws_command u command) [
        | err reason ↦ err (
            cli_error command
              (codes "Command rejected by read-only policy: " ++ reason_text reason))
        | ok allowed ↦ elim (aws_args (split_command u command)) [
          | none ↦ err (cli_error command (codes "could not parse command"))
          | some argv ↦ elim (cli_env s environ o (region_of o args (codes "aws_region"))) [
            | err msg ↦ err (cli_error command (codes "credential resolution failed: " ++ msg))
            | ok env ↦ ok (execution o argv env)
          ]
        ]
      ]

unfoldable pub is_zero : ℤ → Bool
is_zero (pos v) = v == 0
is_zero (negsuc v) = false

module _ (n : Numbers) where
  -- The result of a run that ended with an exit code, or ran out of time.
  unfoldable pub cli_report : Options → Dict (Json n.Number) → Outcome → ℤ → Dict (Json n.Number)
  unfolding is_zero clip str_arg region_of
  cli_report o args out exit_code =
      (codes "ok", boolean (is_zero exit_code && not out.timed_out))
      ∷ (codes "tool", text cli_tool)
      ∷ (codes "command", text (clip (str_arg args (codes "command")) (pos 500)))
      ∷ (codes "aws_region", text (region_of o args (codes "aws_region")))
      ∷ (codes "exit_code", number (n.of_int exit_code))
      ∷ (codes "timed_out", boolean out.timed_out)
      ∷ (codes "stdout", text (clip out.stdout o.max_stdout))
      ∷ (codes "stderr", text (clip out.stderr o.max_stderr))
      ∷ (codes "note", text (codes "Read-only AWS CLI executed at the edge."))
      ∷ []

  unfoldable pub cli_finish :
      Options → Dict (Json n.Number) → Outcome → RunError → Dict (Json n.Number)
  unfolding cli_report cli_error str_arg
  cli_finish o args out success = cli_report o args out (pos 0)
  cli_finish o args out (exit_error code) = cli_report o args out code
  cli_finish o args out (run_failed msg) =
      if not out.timed_out
      then cli_error (str_arg args (codes "command")) (codes "execution failed: " ++ msg)
      else cli_report o args out (pos 0)

  unfoldable pub run_read_only_cli :
      Unicode → Sdk → List Bytes → (Execution → Outcome) → Options → Handler n.Number
  unfolding cli_plan cli_finish
  run_read_only_cli u s environ run o args = elim (cli_plan u s environ o args) [
    | err res ↦ ok (some res)
    | ok e ↦ ok (some (cli_finish o args (run e) (run e).run_error))
  ]
