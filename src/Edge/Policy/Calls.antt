-- ===== src/Edge/Policy/Calls.antt =====
-- internal/edge/policy.go: the words of a call of aws (serviceAndOperation).
use mathlib.Core.Path.{subst}
use skybridge.Prelude.{
  ◌≡◌, ◌≢◌, inl, inr, refl, sym, ap, ◌∙◌, arith, Bool, true, false, not, ◌&&◌, none, List, [], ◌∷◌,
  ◌++◌, Bool-cases, Bytes, bytes_equal,
}
use skybridge.Prelude.Text.{codes, contains, has_prefix, Unicode, to_lower}
use skybridge.Edge.Policy.Names.{OneOf, valued_options, OneOf-is_in, All-OneOf}
use skybridge.Edge.Policy.{
  is_in, before_eq, flag_name, takes_next, bare_words, two_words, service_and_operation,
}

-- Options in front of a word: each with its value where it has one in the next argument.
pub data Flags : List Bytes → Type 0 where
  no_flags : Flags []
  alone :
      {t : Bytes} {ts : List Bytes}
      → has_prefix t (codes "-") ≡ true
      → (OneOf t valued_options → ⊥)
      → Flags ts
      → Flags (t ∷ ts)
  valued : {t v : Bytes} {ts : List Bytes} → OneOf t valued_options → Flags ts → Flags (t ∷ v ∷ ts)

before_eq-none : (s : Bytes) → contains s (codes "=") ≡ false → before_eq s ≡ none
unfolding before_eq contains has_prefix
before_eq-none [] h = refl
before_eq-none (c ∷ s) h = ground (arith, h, before_eq-none s)

false_of : (b : Bool) → not b ≡ true → b ≡ false
false_of b h = ground (arith, h)

and_true : (a b : Bool) → (a && b) ≡ true → (a ≡ true) × (b ≡ true)
and_true a b h = (ground (arith, h), ground (arith, h))

takes_next-OneOf : (t : Bytes) → takes_next t ≡ true → OneOf t valued_options
unfolding takes_next flag_name
takes_next-OneOf t h =
    let (taken, plain) =
      and_true (is_in (flag_name t (before_eq t)) valued_options) (not (contains t (codes "=")))
        h in
    OneOf-is_in t valued_options (
      ap (λ o. is_in (flag_name t o) valued_options)
        (sym (before_eq-none t (false_of (contains t (codes "=")) plain)))
      ∙ taken)

OneOf-takes_next : (t : Bytes) → OneOf t valued_options → takes_next t ≡ true
OneOf-takes_next t =
    unfold takes_next flag_name is_in before_eq contains has_prefix bytes_equal in
    All-OneOf (λ n. takes_next n ≡ true) t valued_options
      (
        refl,
        (
          refl,
          (
            refl,
            (
              refl,
              (refl, (refl, (refl, (refl, (refl, (refl, (refl, (refl, (refl, (refl, tt)))))))))),
            ),
          ),
        ),
      )

-- The first word of the arguments behind options, and what follows it.
pub Leads : Bytes → List Bytes → List Bytes → Type 0
Leads w rest args =
    (flags : List Bytes) × (args ≡ flags ++ (w ∷ rest))
    × Flags flags
    × (has_prefix w (codes "-") ≡ false)

-- What is skipped in front of a word: options, or a value and options.
Skipped : Bool → List Bytes → Type 0
Skipped false fs = Flags fs
Skipped true [] = ⊥
Skipped true (v ∷ fs) = Flags fs

Flags-cons :
    (t : Bytes) (fs : List Bytes)
    → has_prefix t (codes "-") ≡ true
    → Skipped (takes_next t) fs
    → Flags (t ∷ fs)
unfolding Skipped
Flags-cons t fs h skipped = elim (Bool-cases (takes_next t)) [
  | inl e ↦ with_value fs (subst (λ b. Skipped b fs) e skipped) e
  | inr e ↦
      alone h (λ o. let never : true ≡ false = (sym (OneOf-takes_next t o) ∙ e) in cc)
        (subst (λ b. Skipped b fs) e skipped)
]
  where
    with_value : (fs : List Bytes) → Skipped true fs → takes_next t ≡ true → Flags (t ∷ fs)
    with_value [] s e = absurd s
    with_value (v ∷ fs) s e = valued (takes_next-OneOf t e) s

bare_words-splits :
    (skip : Bool) (args : List Bytes) (w : Bytes) (ws : List Bytes)
    → bare_words skip args ≡ w ∷ ws
    → (flags : List Bytes) × (rest : List Bytes) × (args ≡ flags ++ (w ∷ rest))
      × Skipped skip flags
      × (has_prefix w (codes "-") ≡ false)
      × (bare_words false rest ≡ ws)
unfolding bare_words Skipped
bare_words-splits skip [] w ws h = absurd (cc)
bare_words-splits true (tok ∷ args) w ws h =
    let (flags, rest, e, fs, word, more) = bare_words-splits false args w ws h in
    (tok ∷ flags, rest, ap (tok ∷◌) e, fs, word, more)
bare_words-splits false (tok ∷ args) w ws h = elim (Bool-cases (has_prefix tok (codes "-"))) [
  | inl e ↦
      let (flags, rest, e', fs, word, more) =
        bare_words-splits (takes_next tok) args w ws (rw e at h) in
      (tok ∷ flags, rest, ap (tok ∷◌) e', Flags-cons tok flags e fs, word, more)
  | inr e ↦
      let here : tok ∷ bare_words false args ≡ w ∷ ws = rw e at h in
      let same : tok ≡ w = cc in ([], args, ap (λ t. t ∷ args) same, no_flags, rw (← same) e, cc)
]

-- The arguments are options, a service, options, an operation, and anything else; the service and the
-- operation in lower case.
pub record Call (u : Unicode) (service operation : Bytes) (args : List Bytes) : Type 0 where
  pub first : Bytes
  pub second : Bytes
  pub behind : List Bytes
  pub rest : List Bytes
  pub service_leads : Leads first behind args
  pub operation_leads : Leads second rest behind
  pub is_service : service ≡ to_lower u first
  pub is_operation : operation ≡ to_lower u second

Call-words :
    (u : Unicode) (ws args : List Bytes) (service operation : Bytes)
    → bare_words false args ≡ ws
    → two_words u ws ≡ (service, operation)
    → operation ≢ []
    → Call u service operation args
unfolding two_words Skipped Leads
Call-words u [] args service operation h e named = absurd (named (cc))
Call-words u (a ∷ []) args service operation h e named = absurd (named (cc))
Call-words u (a ∷ b ∷ ws) args service operation h e named =
    let (flags, rest, splits, fs, word, more) = bare_words-splits false args a (b ∷ ws) h in
    let (flags', rest', splits', fs', word', more') = bare_words-splits false rest b ws more in
    record {
      first = a;
      second = b;
      behind = rest;
      rest = rest';
      service_leads = (flags, splits, fs, word);
      operation_leads = (flags', splits', fs', word');
      is_service = cc;
      is_operation = cc;
    }

pub service_and_operation-Call :
    (u : Unicode) (args : List Bytes) (service operation : Bytes)
    → service_and_operation u args ≡ (service, operation)
    → operation ≢ []
    → Call u service operation args
unfolding service_and_operation
service_and_operation-Call u args service operation e named =
    Call-words u (bare_words false args) args service operation refl e named
