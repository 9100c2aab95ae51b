-- ===== src/Edge/Policy/Shlex.antt =====
-- internal/edge/policy.go: `shlexSplit`.
pub mod Quoting
use skybridge.Prelude.{
  ℕ, Bool, true, false, not, ◌||◌, List, [], ◌∷◌, ◌++◌, ◌==◌, if◌then◌else◌, Bytes, Result, ok, err,
}

pub data UnbalancedQuote : Type 0 where
  unbalanced_quote : UnbalancedQuote

pub record Lexer : Type 0 where
  pub tokens : List Bytes
  pub cur : Bytes
  pub in_token : Bool
  -- 0, or the open quote
  pub quote : ℕ

abbrev pub start : Lexer
start = record { tokens = []; cur = []; in_token = false; quote = 0 }

-- One turn of the loop.
unfoldable pub lex : Lexer → ℕ → Lexer
lex s c =
    if not (s.quote == 0)
    then (if c == s.quote
        then record { tokens = s.tokens; cur = s.cur; in_token = s.in_token; quote = 0 }
        else record {
          tokens = s.tokens;
          cur = s.cur ++ (c ∷ []);
          in_token = s.in_token;
          quote = s.quote;
        })
    else if c == b'\'' || c == b'"'
    then record { tokens = s.tokens; cur = s.cur; in_token = true; quote = c }
    else if c == b' ' || c == 9
    then (if s.in_token
        then record {
          tokens = s.tokens ++ (s.cur ∷ []);
          cur = [];
          in_token = false;
          quote = s.quote;
        }
        else s)
    else record { tokens = s.tokens; cur = s.cur ++ (c ∷ []); in_token = true; quote = s.quote }

unfoldable pub lex_all : Lexer → Bytes → Lexer
unfolding lex
lex_all s [] = s
lex_all s (c ∷ cs) = lex_all (lex s c) cs

unfoldable pub finish : Lexer → Result UnbalancedQuote (List Bytes)
finish s =
    if not (s.quote == 0)
    then err unbalanced_quote
    else if s.in_token
    then ok (s.tokens ++ (s.cur ∷ []))
    else ok s.tokens

unfoldable pub shlex_split : Bytes → Result UnbalancedQuote (List Bytes)
unfolding lex_all finish
shlex_split s = finish (lex_all start s)
