-- ===== src/Edge/Policy/ReadOnly.antt =====
-- internal/edge/policy.go: what a command is that the policy allows.
use skybridge.Prelude.{
  ◌≡◌, ◌≢◌, ◌≤◌, refl, sym, ap, ◌∙◌, arith, true, false, List, [], ◌∷◌, ◌++◌, ◌⊎◌, Bool-cases,
  bind-eq-ok, inl, inr, Bytes, length, bytes_equal, bytes_equal_iff, All, Result, ok, err, ◌>>=◌,
}
use skybridge.Prelude.Text.{codes, contains, Unicode, to_lower, trim_space}
use skybridge.Edge.Policy.Shlex.{UnbalancedQuote, shlex_split}
use skybridge.Edge.Policy.Names.{
  OneOf, HasVerb, Names, shell_characters, verbs, known_secrets, All-OneOf, is_in-OneOf,
  HasVerb-has_verb,
}
use skybridge.Edge.Policy.Calls.{Call, service_and_operation-Call}
use skybridge.Edge.Policy.{
  forbidden_substrings, denied_flags, denied_arg_tokens, is_in, before_eq, denied_before_eq,
  has_verb, is_read_operation, service_and_operation, check_substrings, check_token, check_tokens,
  check_operation, check_argv, check_command, validate_read_only_aws_command,
}

-- In lower case the argument is neither --profile nor --endpoint-url, with or without a value behind
-- '=', and not --with-decryption.
abbrev pub IsUndenied : Unicode → Bytes → Type 0
IsUndenied u tok =
    (Names (to_lower u tok) (codes "--profile") → ⊥)
    × (Names (to_lower u tok) (codes "--endpoint-url") → ⊥)
    × (to_lower u tok ≢ codes "--with-decryption")

-- `s3 ls`, or of another service an operation that is or begins with one of the verbs, and is none of
-- the known secrets.
abbrev pub IsRead : Unicode → Bytes → Bytes → Type 0
IsRead u service operation =
    (service ≢ [])
    × (operation ≢ [])
    × ((service ≡ codes "s3") × (operation ≡ codes "ls")
        ⊎ (service ≢ codes "s3")
          × HasVerb (to_lower u operation) verbs
          × (OneOf (to_lower u operation) known_secrets → ⊥))

-- The command is one call of aws that the policy allows.
pub record IsReadOnly (u : Unicode) (cmd : Bytes) : Type 0 where
  pub args : List Bytes
  pub service : Bytes
  pub operation : Bytes
  pub splits : shlex_split cmd ≡ ok (codes "aws" ∷ args)
  pub short : length cmd ≤ 1200
  pub plain : All (λ bad. contains cmd bad ≡ false) shell_characters
  pub undenied : All (IsUndenied u) args
  pub calls : Call u service operation args
  pub reads : IsRead u service operation

check_substrings_plain :
    (cmd : Bytes) (bads : List Bytes)
    → check_substrings cmd bads ≡ ok tt
    → All (λ bad. contains cmd bad ≡ false) bads
unfolding check_substrings
check_substrings_plain cmd [] h = tt
check_substrings_plain cmd (bad ∷ bads) h = elim (Bool-cases (contains cmd bad)) [
  | inl found ↦ absurd (ground (arith, h, found))
  | inr none_of ↦ (none_of, check_substrings_plain cmd bads (ground (arith, h, none_of)))
]

denied_option :
    (t option : Bytes)
    → OneOf option denied_flags
    → is_in t denied_flags ≡ false
    → denied_before_eq (before_eq t) ≡ false
    → Names t option
    → ⊥
denied_option t option o whole front (inl e) =
    let never : true ≡ false = sym (is_in-OneOf t denied_flags (rw e o)) ∙ whole in cc
denied_option t option o whole front (inr (v, e)) =
    let denied : denied_before_eq (before_eq (option ++ (b'=' ∷ v))) ≡ true =
      (unfold before_eq denied_before_eq is_in bytes_equal in
        All-OneOf (λ f. denied_before_eq (before_eq (f ++ (b'=' ∷ v))) ≡ true) option denied_flags
          (refl, (refl, tt)) o) in
    let never : true ≡ false =
      sym denied ∙ ap (λ s. denied_before_eq (before_eq s)) (sym e) ∙ front in
    cc

check_token-IsUndenied : (u : Unicode) (tok : Bytes) → check_token u tok ≡ ok tt → IsUndenied u tok
unfolding check_token OneOf
check_token-IsUndenied u tok h =
    let whole : is_in (to_lower u tok) denied_flags ≡ false = ground (arith, h) in
    let front : denied_before_eq (before_eq (to_lower u tok)) ≡ false = ground (arith, h) in
    let other : is_in (to_lower u tok) denied_arg_tokens ≡ false = ground (arith, h) in
    (
      denied_option (to_lower u tok) (codes "--profile") (inl refl) whole front,
      denied_option (to_lower u tok) (codes "--endpoint-url") (inr (inl refl)) whole front,
      λ e.
          let never : true ≡ false =
            sym (is_in-OneOf (to_lower u tok) denied_arg_tokens (inl e)) ∙ other in
          cc,
    )

check_tokens-IsUndenied :
    (u : Unicode) (args : List Bytes) → check_tokens u args ≡ ok tt → All (IsUndenied u) args
unfolding check_tokens
check_tokens-IsUndenied u [] h = tt
check_tokens-IsUndenied u (tok ∷ args) h =
    let (done, first, later) = bind-eq-ok (check_token u tok) (λ done. check_tokens u args) h in
    (check_token-IsUndenied u tok first, check_tokens-IsUndenied u args later)

differs : (s t : Bytes) → bytes_equal s t ≡ false → s ≢ t
differs s t h e = ground (arith, h, (bytes_equal_iff s t).1 e)

check_operation-IsRead :
    (u : Unicode) (service operation : Bytes)
    → check_operation u (service, operation) ≡ ok tt
    → IsRead u service operation
unfolding check_operation is_read_operation
check_operation-IsRead u service operation h =
    let named : service ≢ [] = differs service [] (ground (arith, h)) in
    let called : operation ≢ [] = differs operation [] (ground (arith, h)) in
    elim (Bool-cases (bytes_equal service (codes "s3"))) [
      | inl s3 ↦ (
        named,
        called,
        inl (
          (bytes_equal_iff service (codes "s3")).0 s3,
          (bytes_equal_iff operation (codes "ls")).0 (ground (arith, h, s3)),
        ),
      )
      | inr other ↦
          let known : is_in (to_lower u operation) known_secrets ≡ false =
            ground (arith, h, other) in
          let verb : has_verb (to_lower u operation) verbs ≡ true = ground (arith, h, other) in
          (
            named,
            called,
            inr (
              differs service (codes "s3") other,
              HasVerb-has_verb (to_lower u operation) verbs verb,
              λ o.
                  let never : true ≡ false =
                    sym (is_in-OneOf (to_lower u operation) known_secrets o) ∙ known in
                  cc,
            ),
          )
    ]

check_argv-args :
    (u : Unicode) (r : Result UnbalancedQuote (List Bytes))
    → check_argv u r ≡ ok tt
    → (args : List Bytes) × (r ≡ ok (codes "aws" ∷ args))
      × (check_tokens u args ≡ ok tt)
      × (check_operation u (service_and_operation u args) ≡ ok tt)
unfolding check_argv
check_argv-args u (err e) h = absurd (ground (arith, h))
check_argv-args u (ok []) h = absurd (ground (arith, h))
check_argv-args u (ok (program ∷ args)) h = elim (Bool-cases (bytes_equal program (codes "aws"))) [
  | inl aws ↦
      let (done, first, last) =
        bind-eq-ok (check_tokens u args) (λ done. check_operation u (service_and_operation u args))
          (ground (arith, h, aws)) in
      (args, ap (λ p. ok (p ∷ args)) ((bytes_equal_iff program (codes "aws")).0 aws), first, last)
  | inr other ↦ absurd (ground (arith, h, other))
]

check_command-IsReadOnly :
    (u : Unicode) (cmd : Bytes) → check_command u cmd ≡ ok tt → IsReadOnly u cmd
unfolding check_command
check_command-IsReadOnly u cmd h =
    let checked : (check_substrings cmd forbidden_substrings
          >>= (λ done. check_argv u (shlex_split cmd)))
        ≡ ok tt =
      ground (arith, h) in
    let (done, substrings, argv) =
      bind-eq-ok (check_substrings cmd forbidden_substrings)
        (λ done. check_argv u (shlex_split cmd)) checked in
    let (args, splits, tokens, operation) = check_argv-args u (shlex_split cmd) argv in
    let reads =
      check_operation-IsRead u (service_and_operation u args).0 (service_and_operation u args).1
        operation in
    let (has_service, has_operation, kind) = reads in
    record {
      args = args;
      service = (service_and_operation u args).0;
      operation = (service_and_operation u args).1;
      splits = splits;
      short = ground (arith, h);
      plain = check_substrings_plain cmd forbidden_substrings substrings;
      undenied = check_tokens-IsUndenied u args tokens;
      calls =
          service_and_operation-Call u args (service_and_operation u args).0
            (service_and_operation u args).1 refl has_operation;
      reads = reads;
    }

-- A command that the policy allows is, without the space around it, a single call of aws: at most
-- 1200 bytes with no shell metacharacter, which splits into `aws` and arguments none of which is
-- --profile, --endpoint-url or --with-decryption. Behind options with their values these name a
-- service and an operation: `s3 ls`, or one that begins with one of nine verbs, describe, list, get,
-- lookup, search, batch-get, head, scan and query, and is none of six that are known to give a secret,
-- all in lower case.
pub validate_read_only_aws_command-IsReadOnly :
    (u : Unicode) (command : Bytes)
    → validate_read_only_aws_command u command ≡ ok tt
    → IsReadOnly u (trim_space u command)
unfolding validate_read_only_aws_command
validate_read_only_aws_command-IsReadOnly u command h =
    check_command-IsReadOnly u (trim_space u command) h
