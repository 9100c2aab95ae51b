-- ===== src/Gateway/DbUser.antt =====
-- internal/gateway/dbuser.go: the sniffer of the login name.
-- The flag of an answer is the source's `done`: whether more bytes are of no use.
pub mod Stable
pub mod Chunks
use skybridge.Prelude.{
  ℕ, ◌+◌, ◌-◌, Bool, true, false, not, ◌&&◌, ◌||◌, Option, none, some, List, [], ◌∷◌, ◌++◌, ltb,
  leb, ◌==◌, if◌then◌else◌, has_bit, Bytes, length, take, drop, bytes_equal, cut_zero,
}
use skybridge.Prelude.Endian.{be_uint, le_uint}
use skybridge.Prelude.Text.{codes, Unicode, to_lower, trim_space}

abbrev pub pg_ssl_request_code : ℕ
pg_ssl_request_code = 80877103

abbrev pub pg_gss_request_code : ℕ
pg_gss_request_code = 80877104

abbrev pub pg_cancel_request_code : ℕ
pg_cancel_request_code = 80877102

-- `sniffCap`
abbrev pub sniff_cap : ℕ
sniff_cap = 16384

-- The zero-terminated strings of a buffer; what follows the last zero byte is dropped.
unfoldable pub split_from : Bytes → Bytes → List Bytes
split_from cur [] = []
split_from cur (b ∷ p) =
    let ended = split_from [] p in
    let longer = split_from (cur ++ (b ∷ [])) p in if b == 0 then cur ∷ ended else longer

unfoldable pub split_c_strings : Bytes → List Bytes
unfolding split_from
split_c_strings p = split_from [] p

-- The value behind the first key "user".
unfoldable pub user_of_parts : List Bytes → Bytes
user_of_parts (key ∷ val ∷ parts) =
    let later = user_of_parts parts in if bytes_equal key (codes "user") then val else later
user_of_parts _ = []

unfoldable pub pg_user_from_params : Bytes → Bytes
unfolding split_c_strings user_of_parts
pg_user_from_params params = user_of_parts (split_c_strings params)

-- A frame that is no negotiation: its length, its code, and the bytes behind these eight.
unfoldable pub startup_user : ℕ → ℕ → Bytes → Bytes × Bool
unfolding pg_user_from_params
startup_user len code rest =
    if code == pg_cancel_request_code
    then ([], true)
    else if ltb len 8 || ltb sniff_cap len
    then ([], true)
    else if ltb (8 + length rest) len
    then ([], false)
    else (pg_user_from_params (take (len - 8) rest), true)

-- One turn of the loop for each eight bytes.
unfoldable pub sniff_postgres_user : Bytes → Bytes × Bool
unfolding startup_user
sniff_postgres_user (a ∷ b ∷ c ∷ d ∷ e ∷ f ∷ g ∷ h ∷ rest) =
    let len : ℕ = be_uint (a ∷ b ∷ c ∷ d ∷ []) in
    let code : ℕ = be_uint (e ∷ f ∷ g ∷ h ∷ []) in
    let later = sniff_postgres_user rest in
    if len == 8 && (code == pg_ssl_request_code || code == pg_gss_request_code)
    then later
    else startup_user len code rest
sniff_postgres_user _ = ([], false)

unfoldable pub user_of_name : Option (Bytes × Bytes) → Bytes × Bool
user_of_name none = ([], true)
user_of_name (some (name, rest)) = (name, true)

-- The name in a handshake response's payload, where CLIENT_PROTOCOL_41 is bit 9 of the flags.
unfoldable pub mysql_user : Bytes → Bytes × Bool
unfolding user_of_name cut_zero
mysql_user payload =
    if ltb (length payload) 32
    then ([], true)
    else if not (has_bit 9 (le_uint (take 4 payload)))
    then ([], true)
    else user_of_name (cut_zero (drop 32 payload))

unfoldable pub sniff_mysql_user : Bytes → Bytes × Bool
unfolding mysql_user
sniff_mysql_user buf =
    let plen : ℕ = le_uint (take 3 buf) in
    if ltb (length buf) 4
    then ([], false)
    else if ltb plen 33
    then ([], true)
    else if ltb (length buf) (4 + plen)
    then ([], false)
    else mysql_user (take plen (drop 4 buf))

pub record LoginUserSniffer : Type 0 where
  pub db_type : Bytes
  pub buf : Bytes
  pub is_done : Bool
  pub user : Bytes

unfoldable pub new_login_user_sniffer : Unicode → Bytes → LoginUserSniffer
new_login_user_sniffer u db_type = record {
  db_type = to_lower u (trim_space u db_type);
  buf = [];
  is_done = false;
  user = [];
}

-- The switch of `feed`, on the bytes so far.
unfoldable pub sniff : Bytes → Bytes → Bytes × Bool
unfolding sniff_postgres_user sniff_mysql_user
sniff db_type buf =
    if bytes_equal db_type (codes "postgres") || bytes_equal db_type (codes "postgresql")
    then sniff_postgres_user buf
    else if bytes_equal db_type (codes "mysql")
    then sniff_mysql_user buf
    else ([], true)

-- The name stays empty until the answer is there, so the default case leaves it empty.
unfoldable pub feed : Bytes → LoginUserSniffer → LoginUserSniffer
unfolding sniff
feed p s =
    let (user, is_done) = sniff s.db_type (s.buf ++ p) in
    record s {
      buf = s.buf ++ p;
      user = user;
      is_done = is_done || leb sniff_cap (length (s.buf ++ p));
    }

unfoldable pub write : Bytes → LoginUserSniffer → LoginUserSniffer
unfolding feed
write p s = if s.is_done then s else feed p s

unfoldable pub write_all : List Bytes → LoginUserSniffer → LoginUserSniffer
unfolding write
write_all [] s = s
write_all (p ∷ ps) s = write_all ps (write p s)
