-- ===== src/Edge/Policy/Argv.antt =====
-- internal/edge/policy.go: the bytes of the arguments that an allowed command is run with.
use skybridge.Prelude.{ℕ, ◌≡◌, arith, false, List, [], ◌∷◌, ◌==◌, Bytes, All, ok}
use skybridge.Prelude.Text.{has_prefix, contains, Unicode, trim_space}
use skybridge.Edge.Policy.Shlex.Quoting.{shlex_split-All}
use skybridge.Edge.Policy.{forbidden_substrings, validate_read_only_aws_command, split_command}
use skybridge.Edge.Policy.ReadOnly.{IsReadOnly, validate_read_only_aws_command-IsReadOnly}

-- ; | & < > ` \ newline and carriage return
abbrev pub metacharacters : Bytes
metacharacters = b';' ∷ b'|' ∷ b'&' ∷ b'<' ∷ b'>' ∷ b'`' ∷ 92 ∷ 10 ∷ 13 ∷ []

abbrev pub IsPlain : ℕ → Type 0
IsPlain c = All (λ b. (c == b) ≡ false) metacharacters

All-map : (P Q : ℕ → Type 0) (f : (b : ℕ) → P b → Q b) (bs : Bytes) → All P bs → All Q bs
All-map P Q f [] h = tt
All-map P Q f (b ∷ bs) (hb, h) = (f b hb, All-map P Q f bs h)

contains_head : (c : ℕ) (s : Bytes) (b : ℕ) → contains (c ∷ s) (b ∷ []) ≡ false → (c == b) ≡ false
unfolding contains has_prefix
contains_head c s b h = ground (arith, h)

contains_tail :
    (c : ℕ) (s : Bytes) (b : ℕ) → contains (c ∷ s) (b ∷ []) ≡ false → contains s (b ∷ []) ≡ false
unfolding contains has_prefix
contains_tail c s b h = ground (arith, h)

-- A text that contains none of some bytes, byte by byte.
contains_none :
    (bs s : Bytes)
    → All (λ b. contains s (b ∷ []) ≡ false) bs
    → All (λ c. All (λ b. (c == b) ≡ false) bs) s
contains_none bs [] h = tt
contains_none bs (c ∷ s) h = (
  All-map _ _ (contains_head c s) bs h,
  contains_none bs s (All-map _ _ (contains_tail c s) bs h),
)

IsPlain-bytes :
    (cmd : Bytes) → All (λ bad. contains cmd bad ≡ false) forbidden_substrings → All IsPlain cmd
IsPlain-bytes cmd (h1, (h2, (h3, (h4, (h5, (h6, (h7, (h8, (h9, (h10, (h11, h12))))))))))) =
    contains_none metacharacters cmd (h1, (h2, (h3, (h4, (h5, (h6, (h9, (h10, (h11, tt)))))))))

-- The arguments that an allowed command is split into hold no shell metacharacter, inside quotes or
-- outside.
pub split_command-IsPlain :
    (u : Unicode) (command : Bytes) (tokens : List Bytes)
    → validate_read_only_aws_command u command ≡ ok tt
    → split_command u command ≡ ok tokens
    → All (All IsPlain) tokens
unfolding split_command
split_command-IsPlain u command tokens allowed h =
    let safe : IsReadOnly u (trim_space u command) =
      validate_read_only_aws_command-IsReadOnly u command allowed in
    shlex_split-All IsPlain (trim_space u command) tokens
      (IsPlain-bytes (trim_space u command) safe.plain) h
