-- ===== src/Wire/Postgres/Login.antt =====
-- internal/wire/postgres/auth.go and postgres.go: the login that the agent makes on the server's
-- side, and the login of `ProxyInject` as a whole.
pub mod Ending
pub mod Granted
use skybridge.Prelude.{
  ℕ, zero, suc, ◌+◌, Bool, true, false, not, ◌&&◌, ◌||◌, Option, none, some, [], ◌∷◌, ◌++◌, ltb,
  ◌==◌, if◌then◌else◌, Bytes, length, take, drop, Result, ok, err,
}
use skybridge.Prelude.Dict.{Dict, get_text}
use skybridge.Prelude.Endian.{be_uint}
use skybridge.Prelude.Talk.{Talk, return, fail, emit, guard, ◌>>=◌, ◌>>◌}
use skybridge.Prelude.Text.{codes, Unicode, trim_space}
use skybridge.Wire.Postgres.Auth.{
  AuthError, protocol, rejected, expected_authentication, unsupported_method, out_of_fuel,
  msg_authentication, msg_error_response, auth_ok, auth_cleartext_password, auth_md5_password,
  auth_sasl, read_backend_message, read_startup_params, request_client_password,
  send_client_auth_ok, authentication, startup_message, password_message, parse_error_response,
}
use skybridge.Wire.Credential.{UpstreamCredential, database_for}
use skybridge.Wire.Postgres.Scram.{Crypto, md5_password, scram_client_exchange}
use skybridge.Wire.Postgres.Startup.{write_client_error}

-- What the agent does with one request of the server, and whether the login is done. `random` are the
-- random bytes of a nonce, if there are any.
unfoldable pub answer_request :
    Crypto → Option Bytes → UpstreamCredential → ℕ → Bytes → Talk AuthError Bool
answer_request c random creds code payload =
    if code == auth_ok
    then return true
    else if code == auth_cleartext_password
    then (do emit (password_message creds.password); return false)
    else if code == auth_md5_password
    then (do
      guard (not (ltb (length payload) 8)) protocol
      emit (
          password_message (md5_password c creds.username creds.password (take 4 (drop 4 payload))))
      return false)
    else if code == auth_sasl
    then (do scram_client_exchange c random (drop 4 payload) creds.password; return false)
    else fail (unsupported_method code)

-- One round of the loop.
unfoldable pub login_round : Crypto → Option Bytes → UpstreamCredential → Talk AuthError Bool
login_round c random creds = do
  (typ, payload) ← read_backend_message
  guard (not (typ == msg_error_response)) (rejected (parse_error_response payload))
  guard (typ == msg_authentication) (expected_authentication typ)
  guard (not (ltb (length payload) 4)) protocol
  answer_request c random creds (be_uint (take 4 payload)) payload

go_on : Bool → Talk AuthError (Unit {0}) → Talk AuthError (Unit {0})
go_on true again = return tt
go_on false again = again

-- The loop; `draws` are the random bytes of each round. Each round reads five bytes at least.
unfoldable pub login_loop :
    ℕ → Crypto → (ℕ → Option Bytes) → UpstreamCredential → Talk AuthError (Unit {0})
unfolding go_on
login_loop zero c draws creds = fail out_of_fuel
login_loop (suc fuel) c draws creds =
    login_round c (draws fuel) creds >>= λ done. go_on done (login_loop fuel c draws creds)

unfoldable pub authenticate_upstream :
    Unicode → Crypto → (ℕ → Option Bytes) → UpstreamCredential → Bytes → Talk AuthError (Unit {0})
authenticate_upstream u c draws creds startup_database bs =
    (emit (startup_message creds.username (database_for u creds startup_database))
        >> login_loop (suc (length bs)) c draws creds)
      bs

-- The client's side, up to its token.
unfoldable pub client_login : Talk AuthError (Dict Bytes × Bytes)
client_login = do
  startup ← read_startup_params
  token ← request_client_password
  return (startup, token)

pub data LoginError : Type 0 where
  client_failed : AuthError → LoginError
  denied : LoginError
  upstream_failed : AuthError → LoginError

-- What each side is sent, and the bytes that each side has left for the session.
pub record Login : Type 0 where
  pub to_client : Bytes
  pub to_server : Bytes
  pub outcome : Result LoginError (Bytes × Bytes)

unfoldable pub access_denied : Bytes
access_denied = write_client_error (codes "28000") (codes "curlix: access denied for this session")

unfoldable pub upstream_denied : Bytes
upstream_denied =
    write_client_error (codes "28000") (codes "curlix: upstream authentication failed")

-- After the server's side, with the client's messages so far and its bytes left.
unfoldable pub answer_client : Bytes → Bytes → Bytes × Result AuthError (Unit {0} × Bytes) → Login
answer_client sent client (out, err e) = record {
  to_client = sent ++ upstream_denied;
  to_server = out;
  outcome = err (upstream_failed e);
}
answer_client sent client (out, ok (_, server)) = record {
  to_client = sent ++ (send_client_auth_ok client).0;
  to_server = out;
  outcome = ok (client, server);
}

-- After the client's side.
unfoldable pub resolve_login :
    (Dict Bytes → Bytes → Option UpstreamCredential)
    → (UpstreamCredential → Bytes → Bytes × Result AuthError (Unit {0} × Bytes))
    → Bytes × Result AuthError ((Dict Bytes × Bytes) × Bytes)
    → Login
unfolding answer_client
resolve_login resolve upstream (sent, err e) = record {
  to_client = sent;
  to_server = [];
  outcome = err (client_failed e);
}
resolve_login resolve upstream (sent, ok ((startup, token), client)) =
    elim (resolve startup token) [
      | none ↦ record { to_client = sent ++ access_denied; to_server = []; outcome = err denied }
      | some creds ↦
          answer_client sent client (upstream creds (get_text (codes "database") startup))
    ]

-- `ProxyInject` behind the startup negotiation, up to the copying of the session's bytes.
unfoldable pub proxy_inject :
    Unicode
    → Crypto
    → (ℕ → Option Bytes)
    → (Dict Bytes → Bytes → Option UpstreamCredential)
    → Bytes
    → Bytes
    → Login
proxy_inject u c draws resolve client server =
    resolve_login resolve (λ creds database. authenticate_upstream u c draws creds database server)
      (client_login client)
