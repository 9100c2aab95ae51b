-- ===== src/Edge/Aws/Cli/Scoped.antt =====
-- internal/edge/awsexec/cli.go: what the edge runs, and with which credentials.
use mathlib.Core.Path.{subst}
use skybridge.Prelude.{
  ◌≡◌, refl, sym, ap, ◌∙◌, ◌≢◌, ◌⊎◌, inl, inr, false, true, none, some, List, [], ◌∷◌, ◌++◌, Bytes,
  All, All-append, append-nil, Result, ok, bind-eq-ok, Result-cases, Option-cases, Bool-cases,
  bytes_equal,
}
use skybridge.Prelude.Dict.{Dict}
use skybridge.Prelude.Text.{codes, Unicode, trim_space}
use skybridge.Edge.Policy.{is_in, validate_read_only_aws_command, split_command}
use skybridge.Edge.Policy.Shlex.{UnbalancedQuote, shlex_split}
use skybridge.Edge.Policy.Names.{OneOf, Names, All-OneOf, is_in-OneOf}
use skybridge.Edge.Policy.ReadOnly.{IsReadOnly, validate_read_only_aws_command-IsReadOnly}
use skybridge.Edge.Dispatch.{Json}
use skybridge.Edge.Aws.{Options, Sdk, Credentials, load_config, str_arg, unless_empty}
use skybridge.Edge.Aws.Cli.{
  credential_names, key_of, scrub_aws_env, region_env, session_env, role_env, base_env, cli_env,
  Execution, execution, aws_args, region_of, cli_plan,
}

-- The entry is none of the five names that the source drops, with or without '=' and a value.
abbrev pub IsBare : Bytes → Type 0
IsBare kv =
    (Names kv (codes "AWS_ACCESS_KEY_ID") → ⊥)
    × (Names kv (codes "AWS_SECRET_ACCESS_KEY") → ⊥)
    × (Names kv (codes "AWS_SESSION_TOKEN") → ⊥)
    × (Names kv (codes "AWS_PROFILE") → ⊥)
    × (Names kv (codes "AWS_DEFAULT_PROFILE") → ⊥)

key_of-Names : (kv name : Bytes) → OneOf name credential_names → Names kv name → key_of kv ≡ name
key_of-Names kv name o (inl e) =
    let whole : key_of name ≡ name =
      (unfold key_of in
        All-OneOf (λ n. key_of n ≡ n) name credential_names
          (refl, (refl, (refl, (refl, (refl, tt))))) o) in
    ap key_of e ∙ whole
key_of-Names kv name o (inr (v, e)) =
    let front : key_of (name ++ (b'=' ∷ v)) ≡ name =
      (unfold key_of in
        All-OneOf (λ n. key_of (n ++ (b'=' ∷ v)) ≡ n) name credential_names
          (refl, (refl, (refl, (refl, (refl, tt))))) o) in
    ap key_of e ∙ front

kept :
    (kv name : Bytes)
    → is_in (key_of kv) credential_names ≡ false
    → OneOf name credential_names
    → Names kv name
    → ⊥
kept kv name e o named =
    let never : true ≡ false =
      sym (
        is_in-OneOf (key_of kv) credential_names
          (subst (λ k. OneOf k credential_names) (sym (key_of-Names kv name o named)) o))
      ∙ e in
    cc

kept-IsBare : (kv : Bytes) → is_in (key_of kv) credential_names ≡ false → IsBare kv
unfolding OneOf
kept-IsBare kv e = (
  kept kv _ e (inl refl),
  kept kv _ e (inr (inl refl)),
  kept kv _ e (inr (inr (inl refl))),
  kept kv _ e (inr (inr (inr (inl refl)))),
  kept kv _ e (inr (inr (inr (inr (inl refl))))),
)

scrub_aws_env-IsBare : (env : List Bytes) → All IsBare (scrub_aws_env env)
unfolding scrub_aws_env
scrub_aws_env-IsBare [] = tt
scrub_aws_env-IsBare (kv ∷ env) = elim (Bool-cases (is_in (key_of kv) credential_names)) [
  | inl e ↦ rw e (scrub_aws_env-IsBare env)
  | inr e ↦ rw e (kept-IsBare kv e, scrub_aws_env-IsBare env)
]

region_env-IsBare : (region : Bytes) → All IsBare (region_env region)
unfolding region_env key_of is_in bytes_equal
region_env-IsBare [] = tt
region_env-IsBare (b ∷ bs) = (
  kept-IsBare (codes "AWS_DEFAULT_REGION=" ++ (b ∷ bs)) refl,
  (kept-IsBare (codes "AWS_REGION=" ++ (b ∷ bs)) refl, tt),
)

base_env-IsBare : (environ : List Bytes) (region : Bytes) → All IsBare (base_env environ region)
unfolding base_env
base_env-IsBare environ region =
    All-append IsBare (scrub_aws_env environ) (region_env region) (scrub_aws_env-IsBare environ)
      (region_env-IsBare region)

-- The entries for credentials: their two keys, and a session token if there is one.
pub IsRole : Credentials → List Bytes → Type 0
IsRole c added =
    (session : List Bytes) × (added
      ≡ (codes "AWS_ACCESS_KEY_ID=" ++ c.access_key_id)
        ∷ (codes "AWS_SECRET_ACCESS_KEY=" ++ c.secret_access_key)
        ∷ session)
    × ((c.session_token ≡ []) × (session ≡ [])
        ⊎ (c.session_token ≢ []) × (session ≡ (codes "AWS_SESSION_TOKEN=" ++ c.session_token) ∷ []))

session_cases :
    (t : Bytes)
    → (t ≡ []) × (session_env t ≡ [])
      ⊎ (t ≢ []) × (session_env t ≡ (codes "AWS_SESSION_TOKEN=" ++ t) ∷ [])
unfolding session_env
session_cases [] = inl (refl, refl)
session_cases (b ∷ bs) = inr ((λ e. cc), refl)

role_env-IsRole : (c : Credentials) → IsRole c (role_env c)
unfolding IsRole role_env
role_env-IsRole c = (session_env c.session_token, refl, session_cases c.session_token)

-- The credentials that a role adds to the environment: none where no role is configured, else those
-- of the role.
pub IsGranted : Sdk → Options → Bytes → List Bytes → Type 0
IsGranted s o region added =
    (o.assume_role_arn ≡ []) × (added ≡ [])
    ⊎ (o.assume_role_arn ≢ [])
      × (cfg : s.Config) × (creds : Credentials) × (load_config s o region ≡ ok cfg)
      × (s.retrieve cfg ≡ ok creds)
      × IsRole creds added

-- An environment without the five names, followed by the credentials of the role.
pub record IsScoped (s : Sdk) (o : Options) (region : Bytes) (env : List Bytes) : Type 0 where
  pub inherited : List Bytes
  pub added : List Bytes
  pub splits : env ≡ inherited ++ added
  pub bare : All IsBare inherited
  pub granted : IsGranted s o region added

unless_empty-none : (t : Bytes) → unless_empty t ≡ none → t ≡ []
unfolding unless_empty
unless_empty-none [] h = refl
unless_empty-none (b ∷ bs) h = cc

unless_empty-some : (t : Bytes) (v : Bytes) → unless_empty t ≡ some v → t ≢ []
unfolding unless_empty
unless_empty-some [] v h = cc
unless_empty-some (b ∷ bs) v h = λ e. cc

cli_env-IsScoped :
    (s : Sdk) (environ : List Bytes) (o : Options) (region : Bytes) (env : List Bytes)
    → cli_env s environ o region ≡ ok env
    → IsScoped s o region env
unfolding cli_env IsGranted
cli_env-IsScoped s environ o region env h = elim (Option-cases (unless_empty o.assume_role_arn)) [
  | inl e ↦
      let same : base_env environ region ≡ env = (let r = rw (e, cli_env) at h in cc) in
      record {
        inherited = base_env environ region;
        added = [];
        splits = sym same ∙ sym (append-nil _);
        bare = base_env-IsBare environ region;
        granted = inl (unless_empty-none o.assume_role_arn e, refl);
      }
  | inr (arn, e) ↦
      let (cfg, loaded, rest) = bind-eq-ok (load_config s o region) _ (rw (e, cli_env) at h) in
      let (creds, found, same) = bind-eq-ok (s.retrieve cfg) _ rest in
      record {
        inherited = base_env environ region;
        added = role_env creds;
        splits = cc;
        bare = base_env-IsBare environ region;
        granted = inr (
          unless_empty-some o.assume_role_arn arn e,
          cfg,
          creds,
          loaded,
          found,
          role_env-IsRole creds,
        );
      }
]

aws_args_cases :
    (r : Result UnbalancedQuote (List Bytes)) (args argv : List Bytes)
    → r ≡ ok (codes "aws" ∷ args)
    → aws_args r ≡ some argv
    → args ≡ argv
unfolding aws_args bytes_equal
aws_args_cases r [] argv e h = let same : none ≡ some argv = rw e at h in cc
aws_args_cases r (a ∷ args) argv e h = let same : some (a ∷ args) ≡ some argv = rw e at h in cc

-- What is run for a call: one command of aws that the policy allows, as its argument vector and without
-- a shell, in an environment that keeps none of the five names.
pub record IsSafe (u : Unicode) (s : Sdk) (o : Options) {N : Type 0} (args : Dict (Json N))
    (e : Execution) : Type 0 where
  pub reads : IsReadOnly u (trim_space u (str_arg args (codes "command")))
  pub argv : reads.args ≡ e.argv
  pub binary : e.binary ≡ o.aws_binary
  pub timeout : e.timeout ≡ o.cli_timeout
  pub scoped : IsScoped s o (region_of o args (codes "aws_region")) e.env

-- What the edge runs for a call is one command that the policy allows, as an argument vector behind the
-- configured program, under the configured time limit, and in an environment where each entry of
-- AWS_ACCESS_KEY_ID, AWS_SECRET_ACCESS_KEY, AWS_SESSION_TOKEN, AWS_PROFILE and AWS_DEFAULT_PROFILE is
-- that of the role that is configured. Nothing is said of other names, from which aws can read
-- credentials too.
pub cli_plan-IsSafe :
    (u : Unicode) (s : Sdk) (environ : List Bytes) (o : Options) {N : Type 0} (args : Dict (Json N))
    (e : Execution)
    → cli_plan u s environ o args ≡ ok e
    → IsSafe u s o args e
unfolding cli_plan split_command
cli_plan-IsSafe u s environ o args e h =
    let command = str_arg args (codes "command") in
    elim (Result-cases (validate_read_only_aws_command u command)) [
      | inr (reason, refused) ↦ let never = rw (refused, cli_plan) at h in cc
      | inl (allowed, e1) ↦
          let h1 = rw (e1, cli_plan) at h in
          let safe = validate_read_only_aws_command-IsReadOnly u command e1 in
          elim (Option-cases (aws_args (shlex_split (trim_space u command)))) [
            | inl e2 ↦ let never = rw e2 at h1 in cc
            | inr (argv, e2) ↦
                let h2 = rw e2 at h1 in
                elim (Result-cases (cli_env s environ o (region_of o args (codes "aws_region")))) [
                  | inr (msg, e3) ↦ let never = rw e3 at h2 in cc
                  | inl (env, e3) ↦
                      let same : execution o argv env ≡ e = (let r = rw e3 at h2 in cc) in
                      record {
                        reads = safe;
                        argv =
                            aws_args_cases _ safe.args argv safe.splits e2 ∙ ap (λ x. x.argv) same;
                        binary = ap (λ x. x.binary) (sym same);
                        timeout = ap (λ x. x.timeout) (sym same);
                        scoped = rw (← same) (
                            cli_env-IsScoped s environ o (region_of o args (codes "aws_region")) env
                              e3);
                      }
                ]
          ]
    ]
