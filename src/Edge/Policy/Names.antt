-- ===== src/Edge/Policy/Names.antt =====
-- internal/edge/policy.go: the names that the policy knows, and what it says of a text that a name is
-- found in it.
use mathlib.Core.Path.{subst}
use skybridge.Prelude.{
  ◌≡◌, ◌⊎◌, inl, inr, refl, sym, ◌∙◌, arith, true, List, [], ◌∷◌, ◌++◌, Bool-cases, Bytes, All,
  append_assoc, bytes_equal, bytes_equal_iff,
}
use skybridge.Prelude.Text.{codes, has_prefix}
use skybridge.Edge.Policy.{is_in, has_verb}

unfoldable pub OneOf : Bytes → List Bytes → Type 0
OneOf s [] = ⊥
OneOf s (x ∷ xs) = (s ≡ x) ⊎ OneOf s xs

-- The text is one of the verbs, or one of them with '-' and more behind it.
pub HasVerb : Bytes → List Bytes → Type 0
HasVerb op [] = ⊥
HasVerb op (v ∷ vs) = (op ≡ v) ⊎ ((more : Bytes) × (op ≡ v ++ (b'-' ∷ more))) ⊎ HasVerb op vs

-- The options of aws that have a value in the next argument.
abbrev pub valued_options : List Bytes
valued_options =
    codes "--region"
    ∷ codes "--output"
    ∷ codes "--profile"
    ∷ codes "--endpoint-url"
    ∷ codes "--query"
    ∷ codes "--ca-bundle"
    ∷ codes "--cli-read-timeout"
    ∷ codes "--cli-connect-timeout"
    ∷ codes "--color"
    ∷ codes "--page-size"
    ∷ codes "--max-items"
    ∷ codes "--starting-token"
    ∷ codes "--cli-input-json"
    ∷ codes "--cli-input-yaml"
    ∷ []

abbrev pub shell_characters : List Bytes
shell_characters =
    codes ";"
    ∷ codes "|"
    ∷ codes "&"
    ∷ codes "<"
    ∷ codes ">"
    ∷ codes "`"
    ∷ codes "$("
    ∷ codes "${"
    ∷ (92 ∷ [])
    ∷ (10 ∷ [])
    ∷ (13 ∷ [])
    ∷ []

abbrev pub verbs : List Bytes
verbs =
    codes "describe"
    ∷ codes "list"
    ∷ codes "get"
    ∷ codes "lookup"
    ∷ codes "search"
    ∷ codes "batch-get"
    ∷ codes "head"
    ∷ codes "scan"
    ∷ codes "query"
    ∷ []

-- Six operations that give a secret. There are others, which the policy allows.
abbrev pub known_secrets : List Bytes
known_secrets =
    codes "get-secret-value"
    ∷ codes "get-login-password"
    ∷ codes "get-authorization-token"
    ∷ codes "get-password-data"
    ∷ codes "get-session-token"
    ∷ codes "get-federation-token"
    ∷ []

-- The text is the option, with or without '=' and a value.
abbrev pub Names : Bytes → Bytes → Type 0
Names t option = (t ≡ option) ⊎ ((v : Bytes) × (t ≡ option ++ (b'=' ∷ v)))

pub OneOf-is_in : (s : Bytes) (xs : List Bytes) → is_in s xs ≡ true → OneOf s xs
unfolding OneOf is_in
OneOf-is_in s [] h = absurd (cc)
OneOf-is_in s (x ∷ xs) h = elim (Bool-cases (bytes_equal s x)) [
  | inl e ↦ inl ((bytes_equal_iff s x).0 e)
  | inr e ↦ inr (OneOf-is_in s xs (ground (arith, h, e)))
]

pub is_in-OneOf : (s : Bytes) (xs : List Bytes) → OneOf s xs → is_in s xs ≡ true
unfolding OneOf is_in
is_in-OneOf s [] o = absurd o
is_in-OneOf s (x ∷ xs) (inl e) = rw ((bytes_equal_iff s x).1 e) refl
is_in-OneOf s (x ∷ xs) (inr o) = ground (arith, is_in-OneOf s xs o)

pub All-OneOf : (P : Bytes → Type 0) (s : Bytes) (xs : List Bytes) → All P xs → OneOf s xs → P s
unfolding OneOf
All-OneOf P s [] h o = absurd o
All-OneOf P s (x ∷ xs) (hx, h) (inl e) = subst P (sym e) hx
All-OneOf P s (x ∷ xs) (hx, h) (inr o) = All-OneOf P s xs h o

has_prefix-splits : (s p : Bytes) → has_prefix s p ≡ true → (more : Bytes) × (s ≡ p ++ more)
unfolding has_prefix
has_prefix-splits s [] h = (s, refl)
has_prefix-splits [] (y ∷ p) h = absurd (cc)
has_prefix-splits (x ∷ s) (y ∷ p) h =
    let (more, e) = has_prefix-splits s p (ground (arith, h)) in (more, ground (arith, h, e))

pub HasVerb-has_verb : (op : Bytes) (vs : List Bytes) → has_verb op vs ≡ true → HasVerb op vs
unfolding HasVerb has_verb
HasVerb-has_verb op [] h = absurd (cc)
HasVerb-has_verb op (v ∷ vs) h = elim (Bool-cases (bytes_equal op v)) [
  | inl e ↦ inl ((bytes_equal_iff op v).0 e)
  | inr e ↦ elim (Bool-cases (has_prefix op (v ++ codes "-"))) [
    | inl e' ↦
        let (more, splits) = has_prefix-splits op (v ++ codes "-") e' in
        inr (inl (more, splits ∙ append_assoc v (codes "-") more))
    | inr e' ↦ inr (inr (HasVerb-has_verb op vs (rw (e, e') at h)))
  ]
]
