-- ===== src/Wire/Mysql/Auth/Greeting.antt =====
-- internal/wire/mysql/auth.go, `parseServerGreeting`.
use skybridge.Prelude.{
  ℕ, ◌+◌, ◌-◌, ◌*◌, ◌^◌, Option, none, some, [], ◌∷◌, ◌++◌, ltb, leb, ◌==◌, if◌then◌else◌, has_bit,
  Bytes, length, take, drop, get_or, cut_zero, ok, err,
}
use skybridge.Prelude.Endian.{le_uint}
use skybridge.Wire.Mysql.LenEnc.{Run, out_of_range}
use skybridge.Wire.Mysql.Auth.{nul_text, found_text}

pub record Greeting : Type 0 where
  pub nonce : Bytes
  pub plugin : Bytes
  pub caps : ℕ

-- The fields behind the 20 bytes that end with the upper flags.
unfoldable pub greeting_tail : Bytes → ℕ → Greeting
greeting_tail g caps = record {
  nonce = take 8 (drop 4 g) ++ (if leb 43 (length g) then take 12 (drop 31 g) else []);
  plugin =
      if has_bit 19 caps
      then found_text
          (nul_text g (31 + (if ltb 13 (get_or g 20 0 - 8) then get_or g 20 0 - 8 else 13)))
      else [];
  caps = caps;
}

-- The bytes behind the version: the check counts 11 of them, the slices read 15.
unfoldable pub greeting_behind : Option (Bytes × Bytes) → Run Greeting
unfolding greeting_tail
greeting_behind none = ok (record { nonce = []; plugin = []; caps = 0 })
greeting_behind (some (version, g)) =
    if ltb (length g) 11
    then ok (record { nonce = []; plugin = []; caps = 0 })
    else if ltb (length g) 15
    then err out_of_range
    else if ltb (length g) 20
    then ok (record { nonce = take 8 (drop 4 g); plugin = []; caps = le_uint (take 2 (drop 13 g)) })
    else ok (greeting_tail g (le_uint (take 2 (drop 13 g)) + 2 ^ 16 * le_uint (take 2 (drop 18 g))))

unfoldable pub parse_server_greeting : Bytes → Run Greeting
unfolding greeting_behind cut_zero
parse_server_greeting [] = ok (record { nonce = []; plugin = []; caps = 0 })
parse_server_greeting (b ∷ g) =
    if b == 0x0A
    then greeting_behind (cut_zero g)
    else ok (record { nonce = []; plugin = []; caps = 0 })
