-- ===== src/Wire/Postgres/Auth.antt =====
-- internal/wire/postgres/auth.go: the messages of the two logins, on the client's and on the
-- server's side. The login itself is in Login and Scram.
pub mod Params
use skybridge.Prelude.{
  ℕ, ◌+◌, ◌-◌, Bool, true, false, not, ◌&&◌, ◌||◌, Option, none, some, List, [], ◌∷◌, ◌++◌, ltb,
  ◌==◌, if◌then◌else◌, Bytes, length, take, drop, get_or, Result, ok, err,
}
use skybridge.Prelude.Dict.{Dict, put}
use skybridge.Prelude.Endian.{put_be, be_uint}
use skybridge.Prelude.Reader.{ReadError, read_full}
use skybridge.Prelude.Split.{split_on, trim_zeros}
use skybridge.Prelude.Talk.{Talk, return, fail, receive, emit, guard, ◌>>=◌, ◌>>◌}
use skybridge.Prelude.Text.{codes}

abbrev pub msg_authentication : ℕ
msg_authentication = b'R'

abbrev pub msg_password : ℕ
msg_password = b'p'

abbrev pub msg_error_response : ℕ
msg_error_response = b'E'

abbrev pub auth_ok : ℕ
auth_ok = 0

abbrev pub auth_cleartext_password : ℕ
auth_cleartext_password = 3

abbrev pub auth_md5_password : ℕ
auth_md5_password = 5

abbrev pub auth_sasl : ℕ
auth_sasl = 10

abbrev pub auth_sasl_continue : ℕ
auth_sasl_continue = 11

abbrev pub auth_sasl_final : ℕ
auth_sasl_final = 12

abbrev pub startup_protocol_v3 : ℕ
startup_protocol_v3 = 196608

abbrev pub sniff_startup_cap : ℕ
sniff_startup_cap = 65536

-- The errors, with the words that the source formats into their text.
pub data AuthError : Type 0 where
  read_failed : ReadError → AuthError
  protocol : AuthError
  unsupported_protocol : ℕ → AuthError
  expected_password : ℕ → AuthError
  -- by the server, at its first message, in the SCRAM exchange, and on the proof
  rejected scram_rejected proof_rejected : Bytes → AuthError
  expected_authentication : ℕ → AuthError
  unsupported_method : ℕ → AuthError
  random_failed not_offered expected_continue malformed_server_first foreign_nonce bad_salt :
      AuthError
  bad_iterations : Bytes → AuthError
  expected_final bad_signature signature_mismatch : AuthError
  -- no value of the source: the loop's fuel ran out
  out_of_fuel : AuthError

unfoldable pub read_exact : ℕ → Talk AuthError Bytes
read_exact n bs = ([], elim (read_full n bs) [ ok r ↦ ok r | err e ↦ err (read_failed e) ])

-- `readStartupParams`: the pairs of the pieces, with an empty key left out; a later entry wins.
unfoldable pub params_of : List Bytes → Dict Bytes → Dict Bytes
unfolding put
params_of (key ∷ val ∷ parts) params =
    params_of parts (elim key [ [] ↦ params | b ∷ k ↦ put (b ∷ k) val params ])
params_of _ params = params

unfoldable pub read_startup_params : Talk AuthError (Dict Bytes)
unfolding split_on params_of
read_startup_params = do
  hdr ← read_exact 8
  guard (be_uint (drop 4 hdr) == startup_protocol_v3) (unsupported_protocol (be_uint (drop 4 hdr)))
  guard (not (ltb (be_uint (take 4 hdr)) 8 || ltb sniff_startup_cap (be_uint (take 4 hdr))))
      protocol
  body ← read_exact (be_uint (take 4 hdr) - 8)
  return (params_of (split_on 0 body) [])

-- One message with a type and a length, from either side.
unfoldable pub read_backend_message : Talk AuthError (ℕ × Bytes)
read_backend_message = do
  hdr ← read_exact 5
  guard (not (ltb (be_uint (drop 1 hdr)) 4)) protocol
  payload ← read_exact (be_uint (drop 1 hdr) - 4)
  return (get_or hdr 0 0, payload)

-- 'R', the length 8 and the code
unfoldable pub authentication : ℕ → Bytes
authentication code = msg_authentication ∷ (put_be 4 8 ++ put_be 4 code)

unfoldable pub request_client_password : Talk AuthError Bytes
unfolding authentication trim_zeros
request_client_password = do
  emit (authentication auth_cleartext_password)
  (typ, payload) ← read_backend_message
  guard (typ == msg_password) (expected_password typ)
  return (trim_zeros payload)

unfoldable pub send_client_auth_ok : Talk AuthError (Unit {0})
unfolding authentication
send_client_auth_ok = emit (authentication auth_ok)

startup_param : Bytes → Bytes → Bytes
startup_param k v = k ++ (0 ∷ (v ++ (0 ∷ [])))

unfoldable pub startup_body : Bytes → Bytes → Bytes
unfolding startup_param
startup_body user [] = startup_param (codes "user") user ++ (0 ∷ [])
startup_body user (b ∷ db) =
    startup_param (codes "user") user ++ (startup_param (codes "database") (b ∷ db) ++ (0 ∷ []))

unfoldable pub startup_message : Bytes → Bytes → Bytes
unfolding startup_body
startup_message user database =
    put_be 4 (8 + length (startup_body user database))
    ++ (put_be 4 startup_protocol_v3 ++ startup_body user database)

unfoldable pub frontend : ℕ → Bytes → Bytes
frontend typ payload = typ ∷ (put_be 4 (length payload + 4) ++ payload)

unfoldable pub password_message : Bytes → Bytes
unfolding frontend
password_message password = frontend msg_password (password ++ (0 ∷ []))

-- The text of the first field 'M'.
message_field : List Bytes → Bytes
message_field [] = codes "unknown error"
message_field ((c ∷ b ∷ field) ∷ fields) =
    let later = message_field fields in if c == b'M' then b ∷ field else later
message_field (_ ∷ fields) = message_field fields

unfoldable pub parse_error_response : Bytes → Bytes
unfolding split_on message_field
parse_error_response payload = message_field (split_on 0 payload)
