-- ===== src/Wire/Mysql/Auth/Crash.antt =====
-- internal/wire/mysql/auth.go: the packets that stop the process.
use skybridge.Prelude.{
  ℕ, ◌≤◌, ◌<◌, ◌≡◌, ◌↔◌, arith, ltb, if◌then◌else◌, some, ◌∷◌, ◌++◌, Bytes, length, ok, err,
}
use skybridge.Prelude.Split.{IsFree, cut_zero-append}
use skybridge.Wire.Mysql.LenEnc.{Run, out_of_range}
use skybridge.Wire.Mysql.Auth.Greeting.{Greeting, greeting_behind, parse_server_greeting}

-- A greeting with what follows the version.
abbrev pub greeting : Bytes → Bytes → Bytes
greeting version behind = 0x0A ∷ (version ++ (0 ∷ behind))

by_length : ℕ → Greeting → Greeting → Greeting → Run Greeting
by_length n x y z =
    if ltb n 11
    then ok x
    else if ltb n 15
    then err out_of_range
    else if ltb n 20
    then ok y
    else ok z

by_length_panics :
    (n : ℕ) (x y z : Greeting) → by_length n x y z ≡ err out_of_range → (11 ≤ n) × (n < 15)
unfolding by_length
by_length_panics n x y z h = ground arith

by_length_between :
    (n : ℕ) (x y z : Greeting) → 11 ≤ n → n < 15 → by_length n x y z ≡ err out_of_range
unfolding by_length
by_length_between n x y z low high = ground arith

greeting_behind_iff :
    (version g : Bytes)
    → (greeting_behind (some (version, g)) ≡ err out_of_range) ↔ ((11 ≤ length g) × (length g < 15))
unfolding greeting_behind by_length
greeting_behind_iff version g =
    (by_length_panics (length g) _ _ _, λ h. by_length_between (length g) _ _ _ h.0 h.1)

-- A version 10 greeting of the server stops the process exactly when 11 to 14 bytes follow its version:
-- the length that is checked leaves out the connection id.
pub parse_server_greeting_iff :
    (version behind : Bytes)
    → IsFree 0 version
    → (parse_server_greeting (greeting version behind) ≡ err out_of_range)
      ↔ ((11 ≤ length behind) × (length behind < 15))
unfolding parse_server_greeting
parse_server_greeting_iff version behind free =
    rw (cut_zero-append version behind free, parse_server_greeting)
      (greeting_behind_iff version behind)
