-- ===== src/Wire/Mysql/Auth.antt =====
-- internal/wire/mysql/auth.go: the packets of the two logins, on the client's and on the server's
-- side. The exchanges themselves are in Client and Upstream.
pub mod RoundTrip
pub mod Crash
pub mod Overflow
pub mod Greeting
pub mod Upstream
pub mod Login
pub mod Ending
pub mod Cleartext
use Prim.Native.Nat.{bit_and, bit_or}
use skybridge.Prelude.{
  ℕ, ◌+◌, ◌-◌, ◌*◌, ◌/◌, ◌%◌, ◌^◌, Bool, true, false, not, ◌&&◌, Option, none, some, List, [], ◌∷◌,
  ◌++◌, ltb, leb, ◌==◌, if◌then◌else◌, has_bit, Bytes, length, take, drop, get_or, cut_zero, Result,
  ok, err, ◌>>=◌,
}
use skybridge.Prelude.Endian.{put_le, le_uint}
use skybridge.Prelude.Split.{trim_zeros}
use skybridge.Prelude.Text.{codes}
use skybridge.Wire.Mysql.LenEnc.{Run, out_of_range, add_int, is_negative, read_len_enc_int}
use skybridge.Wire.Mysql.Packet.{max_packet, write_packet}

abbrev pub pkt_ok : ℕ
pkt_ok = 0x00

abbrev pub pkt_err : ℕ
pkt_err = 0xFF

abbrev pub auth_switch_request : ℕ
auth_switch_request = 0xFE

abbrev pub auth_more_data : ℕ
auth_more_data = 0x01

abbrev pub fast_auth_success : ℕ
fast_auth_success = 0x03

abbrev pub full_auth : ℕ
full_auth = 0x04

abbrev pub plugin_native_password : Bytes
plugin_native_password = codes "mysql_native_password"

abbrev pub plugin_caching_sha2 : Bytes
plugin_caching_sha2 = codes "caching_sha2_password"

abbrev pub plugin_clear_password : Bytes
plugin_clear_password = codes "mysql_clear_password"

-- The capability flags by name: long password, connect with a database, protocol 4.1, TLS, secure
-- connection and plugins.
abbrev pub cap_long_password : ℕ
cap_long_password = 0x00000001

abbrev pub cap_connect_with_db : ℕ
cap_connect_with_db = 0x00000008

abbrev pub cap_protocol41 : ℕ
cap_protocol41 = 0x00000200

abbrev pub cap_ssl : ℕ
cap_ssl = 0x00000800

abbrev pub cap_secure_connection : ℕ
cap_secure_connection = 0x00008000

abbrev pub cap_plugin_auth : ℕ
cap_plugin_auth = 0x00080000

abbrev zeros : ℕ → Bytes
zeros n = put_le n 0

-- `readNulString` at an offset that is not negative.
unfoldable pub nul_text : Bytes → ℕ → Option (Bytes × ℕ)
nul_text p off = elim (cut_zero (drop off p)) [
  | none ↦ none
  | some (s, rest) ↦ some (s, off + length s + 1)
]

unfoldable pub read_nul_string : Bytes → ℕ → Run (Option (Bytes × ℕ))
unfolding nul_text
read_nul_string p off = if is_negative off then err out_of_range else ok (nul_text p off)

-- By whether the agent has a certificate for its clients.
unfoldable pub server_greeting : Bool → Bytes → Bytes
server_greeting tls nonce =
    0x0A
    ∷ (codes "8.0.0-curlix"
        ++ (0
            ∷ 1
            ∷ 0
            ∷ 0
            ∷ 0
            ∷ (take 8 nonce
                ++ (0
                    ∷ (put_le 2 (if tls then 0x8A01 else 0x8201)
                        ++ (0x21
                            ∷ 0x02
                            ∷ 0x00
                            ∷ (put_le 2 (cap_plugin_auth / 2 ^ 16)
                                ++ ((length nonce + 1) % 256
                                    ∷ (zeros 10
                                        ++ (take 12 (drop 8 nonce)
                                            ++ (0 ∷ (plugin_native_password ++ (0 ∷ [])))))))))))))

unfoldable pub auth_switch_to_clear : Bytes
auth_switch_to_clear = auth_switch_request ∷ (plugin_clear_password ++ (0 ∷ []))

pub record ClientHandshake : Type 0 where
  pub username : Bytes
  pub database : Bytes
  pub caps : ℕ
  pub next_seq : ℕ

-- The offset behind the auth response: `off += n + int(l)` for a length-encoded one, whose length may
-- turn the offset negative.
unfoldable pub skip_auth_response : Bytes → ℕ → ℕ → Run (Option ℕ)
unfolding nul_text
skip_auth_response p caps off =
    if has_bit 21 caps
    then (do
      r ← read_len_enc_int p off
      ok (elim r [ none ↦ none | some (l, n) ↦ some (add_int off (add_int n l)) ]))
    else if has_bit 15 caps
    then ok (if leb (length p) off then none else some (off + (1 + get_or p off 0)))
    else ok (some (elim (nul_text p off) [ none ↦ off | some (s, behind) ↦ behind ]))

unfoldable pub found_text : Option (Bytes × ℕ) → Bytes
found_text none = []
found_text (some (s, off)) = s

database_at : Bytes → ℕ → Option ℕ → Run Bytes
unfolding read_nul_string found_text
database_at p caps none = ok []
database_at p caps (some off) =
    if has_bit 3 caps then (do r ← read_nul_string p off; ok (found_text r)) else ok []

behind_user : Bytes → ℕ → Option (Bytes × ℕ) → Run ClientHandshake
unfolding skip_auth_response database_at
behind_user p caps none = ok (record { username = []; database = []; caps = caps; next_seq = 0 })
behind_user p caps (some (user, off)) = do
  after ← skip_auth_response p caps off
  db ← database_at p caps after
  ok (record { username = user; database = db; caps = caps; next_seq = 0 })

unfoldable pub parse_handshake_response : Bytes → ℕ → Run ClientHandshake
unfolding nul_text behind_user
parse_handshake_response p caps = behind_user p caps (nul_text p 32)

-- `database != ""`
abbrev pub is_named : Bytes → Bool
is_named [] = false
is_named (b ∷ db) = true

own_caps : ℕ
own_caps =
    bit_or cap_long_password (bit_or cap_protocol41 (bit_or cap_secure_connection cap_plugin_auth))

unfoldable pub upstream_caps : ℕ → Bytes → ℕ
unfolding own_caps
upstream_caps server_caps database =
    bit_and (if is_named database then bit_or own_caps cap_connect_with_db else own_caps) (
      bit_or server_caps (
        bit_or cap_protocol41 (
          bit_or cap_secure_connection
            (bit_or cap_plugin_auth (bit_or cap_connect_with_db cap_long_password)))))

unfoldable pub response_caps : Bool → Bool → ℕ
unfolding own_caps
response_caps named secure =
    let caps : ℕ = if named then bit_or own_caps cap_connect_with_db else own_caps in
    if secure then bit_or caps cap_ssl else caps

unfoldable pub named_database : Bytes → Bytes
named_database [] = []
named_database (b ∷ db) = (b ∷ db) ++ (0 ∷ [])

unfoldable pub build_handshake_response : Bytes → Bytes → Bytes → Bytes → Bool → Bytes
unfolding response_caps named_database
build_handshake_response user database plugin auth_resp secure =
    put_le 4 (response_caps (is_named database) secure)
    ++ (put_le 4 max_packet
        ++ (0x21
            ∷ (zeros 23
                ++ (user
                    ++ (0
                        ∷ length auth_resp % 256
                        ∷ (auth_resp ++ (named_database database ++ (plugin ++ (0 ∷ [])))))))))

-- The plugin, by its name, and the data behind it.
unfoldable pub parse_auth_switch : Bytes → Bytes × Bytes
unfolding trim_zeros
parse_auth_switch p = elim (nul_text p 1) [
  | none ↦ (plugin_native_password, [])
  | some (name, off) ↦ (name, trim_zeros (drop off p))
]

unfoldable pub ok_payload : Bytes
ok_payload = pkt_ok ∷ 0x00 ∷ 0x00 ∷ 0x02 ∷ 0x00 ∷ 0x00 ∷ 0x00 ∷ []

unfoldable pub client_error : ℕ → ℕ → Bytes → Bytes → Bytes
client_error seq code sql_state message =
    write_packet seq (pkt_err ∷ (put_le 2 code ++ (b'#' ∷ (sql_state ++ message))))

unfoldable pub err_message : Bytes → Bytes
err_message p =
    if leb 9 (length p) && get_or p 3 0 == b'#'
    then drop 9 p
    else if ltb 3 (length p)
    then drop 3 p
    else codes "unknown error"
