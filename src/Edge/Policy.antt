-- ===== src/Edge/Policy.antt =====
-- internal/edge/policy.go: the allowlist of read-only AWS commands.
-- A reason carries the words that the source formats into its text.
pub mod Shlex
pub mod Argv
pub mod Names
pub mod Calls
pub mod ReadOnly
use skybridge.Prelude.{
  ℕ, Bool, true, false, not, ◌&&◌, ◌||◌, Option, none, some, List, [], ◌∷◌, ◌++◌, ltb, ◌==◌,
  if◌then◌else◌, Bytes, length, bytes_equal, Result, ok, err, ◌>>=◌,
}
use skybridge.Prelude.Text.{codes, has_prefix, contains, Unicode, to_lower, trim_space}
use skybridge.Edge.Policy.Shlex.{UnbalancedQuote, shlex_split}

-- `MaxCommandLen`
abbrev pub max_command_len : ℕ
max_command_len = 1200

abbrev pub forbidden_substrings : List Bytes
forbidden_substrings =
    codes ";"
    ∷ codes "|"
    ∷ codes "&"
    ∷ codes "<"
    ∷ codes ">"
    ∷ codes "`"
    ∷ codes "$("
    ∷ codes "${"
    ∷ (92 ∷ [])
    ∷ (10 ∷ [])
    ∷ (13 ∷ [])
    ∷ []

abbrev pub value_flags : List Bytes
value_flags =
    codes "--region"
    ∷ codes "--output"
    ∷ codes "--profile"
    ∷ codes "--endpoint-url"
    ∷ codes "--query"
    ∷ codes "--ca-bundle"
    ∷ codes "--cli-read-timeout"
    ∷ codes "--cli-connect-timeout"
    ∷ codes "--color"
    ∷ codes "--page-size"
    ∷ codes "--max-items"
    ∷ codes "--starting-token"
    ∷ codes "--cli-input-json"
    ∷ codes "--cli-input-yaml"
    ∷ []

abbrev pub read_verb_prefixes : List Bytes
read_verb_prefixes =
    codes "describe"
    ∷ codes "list"
    ∷ codes "get"
    ∷ codes "lookup"
    ∷ codes "search"
    ∷ codes "batch-get"
    ∷ codes "head"
    ∷ codes "scan"
    ∷ codes "query"
    ∷ []

abbrev pub sensitive_operations : List Bytes
sensitive_operations =
    codes "get-secret-value"
    ∷ codes "get-login-password"
    ∷ codes "get-authorization-token"
    ∷ codes "get-password-data"
    ∷ codes "get-session-token"
    ∷ codes "get-federation-token"
    ∷ []

abbrev pub denied_flags : List Bytes
denied_flags = codes "--profile" ∷ codes "--endpoint-url" ∷ []

abbrev pub denied_arg_tokens : List Bytes
denied_arg_tokens = codes "--with-decryption" ∷ []

-- Membership of a set of strings.
unfoldable pub is_in : Bytes → List Bytes → Bool
is_in s [] = false
is_in s (x ∷ xs) = bytes_equal s x || is_in s xs

-- `tok[:i]` for the first '=' at `i`, if there is one.
unfoldable pub before_eq : Bytes → Option Bytes
before_eq [] = none
before_eq (c ∷ s) =
    let rest = before_eq s in
    if c == b'=' then some [] else elim rest [ none ↦ none | some name ↦ some (c ∷ name) ]

unfoldable pub has_verb : Bytes → List Bytes → Bool
has_verb op [] = false
has_verb op (prefix ∷ prefixes) =
    (bytes_equal op prefix || has_prefix op (prefix ++ codes "-")) || has_verb op prefixes

unfoldable pub is_read_operation : Unicode → Bytes → Bool
unfolding has_verb is_in
is_read_operation u operation =
    not (is_in (to_lower u operation) sensitive_operations)
    && has_verb (to_lower u operation) read_verb_prefixes

unfoldable pub flag_name : Bytes → Option Bytes → Bytes
flag_name tok none = tok
flag_name tok (some name) = name

-- Whether the token after the flag `tok` is its value.
unfoldable pub takes_next : Bytes → Bool
unfolding is_in before_eq flag_name
takes_next tok = is_in (flag_name tok (before_eq tok)) value_flags && not (contains tok (codes "="))

-- The words that are neither flags nor values of flags; the first flag says to skip a token. The
-- source stops after two, and reads no more than two.
unfoldable pub bare_words : Bool → List Bytes → List Bytes
unfolding takes_next
bare_words skip [] = []
bare_words true (tok ∷ args) = bare_words false args
bare_words false (tok ∷ args) =
    let flagged = bare_words (takes_next tok) args in
    let rest = bare_words false args in if has_prefix tok (codes "-") then flagged else tok ∷ rest

unfoldable pub two_words : Unicode → List Bytes → Bytes × Bytes
two_words u [] = ([], [])
two_words u (a ∷ []) = (to_lower u a, [])
two_words u (a ∷ b ∷ rest) = (to_lower u a, to_lower u b)

unfoldable pub service_and_operation : Unicode → List Bytes → Bytes × Bytes
unfolding bare_words two_words
service_and_operation u args = two_words u (bare_words false args)

pub data Reason : Type 0 where
  empty_command too_long unbalanced_quote not_aws missing_service missing_operation : Reason
  metacharacter : Bytes → Reason
  flag_not_allowed : Bytes → Reason
  argument_not_allowed : Bytes → Reason
  not_read_only_s3 : Bytes → Reason
  not_on_allowlist : Bytes → Reason

unfoldable pub check_substrings : Bytes → List Bytes → Result Reason Unit
check_substrings cmd [] = ok tt
check_substrings cmd (bad ∷ rest) =
    let later = check_substrings cmd rest in
    if contains cmd bad then err (metacharacter bad) else later

-- `low[:i]` of the token in lower case.
unfoldable pub denied_before_eq : Option Bytes → Bool
unfolding is_in
denied_before_eq none = false
denied_before_eq (some name) = is_in name denied_flags

unfoldable pub check_token : Unicode → Bytes → Result Reason Unit
unfolding is_in before_eq denied_before_eq flag_name
check_token u tok =
    let low = to_lower u tok in
    if is_in low denied_flags
    then err (flag_not_allowed tok)
    else if denied_before_eq (before_eq low)
    then err (flag_not_allowed (flag_name tok (before_eq tok)))
    else if is_in low denied_arg_tokens
    then err (argument_not_allowed tok)
    else ok tt

unfoldable pub check_tokens : Unicode → List Bytes → Result Reason Unit
unfolding check_token
check_tokens u [] = ok tt
check_tokens u (tok ∷ args) = do done ← check_token u tok; check_tokens u args

unfoldable pub check_operation : Unicode → Bytes × Bytes → Result Reason Unit
unfolding is_read_operation
check_operation u (service, operation) =
    if bytes_equal service []
    then err missing_service
    else if bytes_equal operation []
    then err missing_operation
    else if bytes_equal service (codes "s3")
    then (if bytes_equal operation (codes "ls") then ok tt else err (not_read_only_s3 operation))
    else if not (is_read_operation u operation)
    then err (not_on_allowlist operation)
    else ok tt

unfoldable pub check_argv : Unicode → Result UnbalancedQuote (List Bytes) → Result Reason Unit
unfolding check_tokens check_operation service_and_operation
check_argv u (err e) = err unbalanced_quote
check_argv u (ok []) = err empty_command
check_argv u (ok (program ∷ args)) =
    if not (bytes_equal program (codes "aws"))
    then err not_aws
    else (do done ← check_tokens u args; check_operation u (service_and_operation u args))

unfoldable pub check_command : Unicode → Bytes → Result Reason Unit
unfolding check_substrings check_argv shlex_split
check_command u cmd =
    if bytes_equal cmd []
    then err empty_command
    else if ltb max_command_len (length cmd)
    then err too_long
    else (do done ← check_substrings cmd forbidden_substrings; check_argv u (shlex_split cmd))

-- `ok` for `(true, "ok")`.
unfoldable pub validate_read_only_aws_command : Unicode → Bytes → Result Reason Unit
unfolding check_command
validate_read_only_aws_command u command = check_command u (trim_space u command)

unfoldable pub split_command : Unicode → Bytes → Result UnbalancedQuote (List Bytes)
split_command u command = shlex_split (trim_space u command)
