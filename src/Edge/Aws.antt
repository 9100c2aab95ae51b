-- ===== src/Edge/Aws.antt =====
-- internal/edge/awsexec/awsexec.go and register.go: the options of the edge's tools, the arguments they
-- read and their registration. The AWS SDK and the numbers of encoding/json are parameters.
pub mod Cli
pub mod Metrics
pub mod Queries
pub mod Series
pub mod Logs
pub mod Ecs
pub mod Snapshot
pub mod MetricsCall
use skybridge.Prelude.{
  ℕ, zero, suc, Bool, true, false, Option, none, some, List, [], ◌∷◌, ◌++◌, take, length, Bytes,
  Result, ok, err, if◌then◌else◌, ◌>>=◌,
}
use skybridge.Prelude.Int.{ℤ, pos, negsuc}
use skybridge.Prelude.Dict.{Dict, get}
use skybridge.Prelude.Text.{codes}
use skybridge.Edge.Dispatch.{Json, number, text, array, Items, no_items, item, Handler, register}

-- The durations are in nanoseconds.
pub record Options : Type 0 where
  pub region : Bytes
  pub assume_role_arn : Bytes
  pub external_id : Bytes
  pub aws_binary : Bytes
  pub cli_timeout : ℤ
  pub max_stdout : ℤ
  pub max_stderr : ℤ
  pub logs_poll_every : ℤ
  pub logs_max_wait : ℤ
  pub max_rows : ℤ

-- A text, with another where it is empty.
unfoldable pub or_text : Bytes → Bytes → Bytes
or_text [] d = d
or_text (b ∷ bs) d = b ∷ bs

-- A setting, with its default where it is zero or less.
unfoldable pub or_default : ℤ → ℕ → ℤ
or_default (pos (suc n)) d = pos (suc n)
or_default _ d = pos d

abbrev pub second : ℕ
second = 1_000_000_000

unfoldable pub with_defaults : Options → Options
unfolding or_text or_default
with_defaults o = record {
  region = o.region;
  assume_role_arn = o.assume_role_arn;
  external_id = o.external_id;
  aws_binary = or_text o.aws_binary (codes "aws");
  cli_timeout = or_default o.cli_timeout 30_000_000_000;
  max_stdout = or_default o.max_stdout 6000;
  max_stderr = or_default o.max_stderr 2000;
  logs_poll_every = or_default o.logs_poll_every second;
  logs_max_wait = or_default o.logs_max_wait 30_000_000_000;
  max_rows = or_default o.max_rows 60;
}

pub record Credentials : Type 0 where
  pub access_key_id : Bytes
  pub secret_access_key : Bytes
  pub session_token : Bytes

-- What the AWS SDK does: its default configuration for a region, the credentials of a role, assumed
-- under a session name and an external id, and the credentials of a configuration.
pub record Sdk : Type 1 where
  pub Config : Type 0
  pub load_default : Option Bytes → Result Bytes Config
  pub assume_role : Bytes → Bytes → Option Bytes → Config → Config
  pub retrieve : Config → Result Bytes Credentials

unfoldable pub unless_empty : Bytes → Option Bytes
unless_empty [] = none
unless_empty (b ∷ bs) = some (b ∷ bs)

module _ (s : Sdk) where
  unfoldable pub with_role : Options → Option Bytes → s.Config → s.Config
  unfolding unless_empty
  with_role o none cfg = cfg
  with_role o (some arn) cfg =
      s.assume_role arn (codes "skybridge-edge") (unless_empty o.external_id) cfg

  unfoldable pub load_config : Options → Bytes → Result Bytes s.Config
  unfolding unless_empty with_role
  load_config o region = s.load_default (unless_empty region) >>= λ cfg.
      ok (with_role o (unless_empty o.assume_role_arn) cfg)

-- `int(v)` of a number of encoding/json, and such a number for an integer.
pub record Numbers : Type 1 where
  pub Number : Type 0
  pub to_int : Number → ℤ
  pub of_int : ℤ → Number

unfoldable pub text_of : {N : Type 0} → Option (Json N) → Bytes
text_of (some (text v)) = v
text_of _ = []

unfoldable pub str_arg : {N : Type 0} → Dict (Json N) → Bytes → Bytes
unfolding text_of
str_arg args key = text_of (get key args)

unfoldable pub int_of : (n : Numbers) → Option (Json n.Number) → Option ℤ
int_of n (some (number v)) = some (n.to_int v)
int_of n _ = none

unfoldable pub int_arg : (n : Numbers) → Dict (Json n.Number) → Bytes → Option ℤ
unfolding int_of
int_arg n args key = int_of n (get key args)

unfoldable pub texts : {N : Type 0} → Items N → List Bytes
texts no_items = []
texts (item (text []) vs) = texts vs
texts (item (text (b ∷ bs)) vs) = (b ∷ bs) ∷ texts vs
texts (item v vs) = texts vs

unfoldable pub string_list : {N : Type 0} → Option (Json N) → List Bytes
unfolding texts
string_list (some (array vs)) = texts vs
string_list _ = []

unfoldable pub clip : Bytes → ℤ → Bytes
clip s (pos (suc n)) = take (suc n) s
clip s _ = s

-- `Register`, which leaves the error of a single registration aside.
unfoldable pub with_tool : {N : Type 0} → Bytes → Handler N → Dict (Handler N) → Dict (Handler N)
unfolding register
with_tool name h r = elim (register name h r) [ ok r' ↦ r' | err e ↦ r ]

unfoldable pub register_tools :
    {N : Type 0} → Handler N → Handler N → Handler N → Dict (Handler N) → Dict (Handler N)
unfolding with_tool
register_tools cli logs metrics r =
    with_tool (codes "cloudwatch_metrics") metrics (
      with_tool (codes "cloudwatch_logs_insights") logs
        (with_tool (codes "aws_readonly_cli") cli r))
