-- ===== src/Edge/Policy/Shlex/Quoting.antt =====
-- internal/edge/policy.go: what `shlexSplit` gives back, and where its tokens' bytes come from.
use mathlib.Core.Path.{subst}
use skybridge.Prelude.{
  ℕ, ◌≡◌, refl, true, false, not, ◌||◌, List, [], ◌∷◌, ◌++◌, ◌==◌, if_both, Bytes, All, All-append,
  Result, ok, err,
}
use skybridge.Edge.Policy.Shlex.{UnbalancedQuote, Lexer, start, lex, lex_all, finish, shlex_split}

-- A command line that quotes each token in single quotes.
abbrev quoted : Bytes → Bytes
quoted t = b'\'' ∷ (t ++ (b'\'' ∷ []))

abbrev pub command_line : List Bytes → Bytes
command_line [] = []
command_line (t ∷ tokens) = quoted t ++ (b' ' ∷ command_line tokens)

lex_all-append : (s : Lexer) (xs ys : Bytes) → lex_all s (xs ++ ys) ≡ lex_all (lex_all s xs) ys
unfolding lex_all
lex_all-append s [] ys = refl
lex_all-append s (c ∷ xs) ys = lex_all-append (lex s c) xs ys

abbrev inside : List Bytes → Bytes → Lexer
inside tokens cur = record { tokens = tokens; cur = cur; in_token = true; quote = b'\'' }

abbrev between : List Bytes → Lexer
between tokens = record { tokens = tokens; cur = []; in_token = false; quote = 0 }

-- Bytes of the tokens so far.
abbrev HoldsOnly : (ℕ → Type 0) → Lexer → Type 0
HoldsOnly P s = All (All P) s.tokens × All P s.cur

lex-HoldsOnly : (P : ℕ → Type 0) (s : Lexer) (c : ℕ) → P c → HoldsOnly P s → HoldsOnly P (lex s c)
unfolding lex
lex-HoldsOnly P s c hc h =
    let more : All P (s.cur ++ (c ∷ [])) = All-append P s.cur (c ∷ []) h.1 (hc, tt) in
    let ended : All (All P) (s.tokens ++ (s.cur ∷ [])) =
      All-append (All P) s.tokens (s.cur ∷ []) h.0 (h.1, tt) in
    let Q : Lexer → Type 0 = HoldsOnly P in
    if_both Q (not (s.quote == 0)) _ _ (if_both Q (c == s.quote) _ _ h (h.0, more)) (
      if_both Q (c == b'\'' || c == b'"') _ _ h
        (if_both Q (c == b' ' || c == 9) _ _ (if_both Q s.in_token _ _ (ended, tt) h) (h.0, more)))

lex_all-HoldsOnly :
    (P : ℕ → Type 0) (s : Lexer) (cs : Bytes)
    → All P cs
    → HoldsOnly P s
    → HoldsOnly P (lex_all s cs)
unfolding lex_all
lex_all-HoldsOnly P s [] hcs h = h
lex_all-HoldsOnly P s (c ∷ cs) (hc, hcs) h =
    lex_all-HoldsOnly P (lex s c) cs hcs (lex-HoldsOnly P s c hc h)

abbrev AllTokens : (ℕ → Type 0) → Result UnbalancedQuote (List Bytes) → Type 0
AllTokens P (err e) = Unit
AllTokens P (ok tokens) = All (All P) tokens

finish-AllTokens : (P : ℕ → Type 0) (s : Lexer) → HoldsOnly P s → AllTokens P (finish s)
unfolding finish
finish-AllTokens P s h = if_both (AllTokens P) (not (s.quote == 0)) _ _ tt (
    if_both (AllTokens P) s.in_token _ _ (All-append (All P) s.tokens (s.cur ∷ []) h.0 (h.1, tt))
      h.0)

-- Every byte of a token stands in the text that is split: what holds of the text's bytes holds of
-- the bytes of each token.
pub shlex_split-All :
    (P : ℕ → Type 0) (s : Bytes) (tokens : List Bytes)
    → All P s
    → shlex_split s ≡ ok tokens
    → All (All P) tokens
unfolding shlex_split
shlex_split-All P s tokens h e =
    subst (AllTokens P) e
      (finish-AllTokens P (lex_all start s) (lex_all-HoldsOnly P start s h (tt, tt)))
