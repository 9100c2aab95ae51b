-- ===== src/Wire/Postgres/Startup.antt =====
-- internal/wire/postgres/postgres.go: `negotiateStartup` and the error message of a refused login.
pub mod Declined
use skybridge.Prelude.{
  ℕ, zero, suc, Bool, true, false, ◌&&◌, ◌||◌, Option, none, some, [], ◌∷◌, ◌++◌, ◌==◌,
  if◌then◌else◌, Bytes, take, drop, Result, ok, err,
}
use skybridge.Prelude.Endian.{be_uint}
use skybridge.Prelude.Text.{codes}
use skybridge.Prelude.Reader.{ReadError, read_full}
use skybridge.Wire.Postgres.Backend.{write_message}

abbrev pub ssl_request_code : ℕ
ssl_request_code = 80877103

abbrev pub gss_request_code : ℕ
gss_request_code = 80877104

abbrev pub cancel_request_code : ℕ
cancel_request_code = 80877102

abbrev pub msg_error_response : ℕ
msg_error_response = b'E'

pub data StartupError : Type 0 where
  read_failed : ReadError → StartupError
  handshake_failed : StartupError
  -- no value of the source: the loop's fuel ran out
  out_of_fuel : StartupError

-- Where the negotiation ends: the plaintext that the engine reads from here on, and the bytes that
-- it sent before (those after a handshake travel inside TLS).
pub record Negotiated : Type 0 where
  pub input : Bytes
  pub sent : Bytes
  pub encrypted : Bool

abbrev pub is_negotiation : Bytes → Bool
is_negotiation hdr =
    be_uint (take 4 hdr) == 8
    && (be_uint (drop 4 hdr) == ssl_request_code || be_uint (drop 4 hdr) == gss_request_code)

pub data Answer : Type 0 where
  declined broken : Answer
  accepted : Bytes → Answer

-- The answer to a negotiation frame. `tls` is crypto/tls's server handshake, if the engine
-- terminates TLS: from the bytes of the connection to the plaintext inside, `none` where it fails.
unfoldable pub answer : Option (Bytes → Option Bytes) → ℕ → Bytes → Answer
answer none code rest = declined
answer (some handshake) code rest =
    if code == ssl_request_code
    then elim (handshake rest) [ none ↦ broken | some plain ↦ accepted plain ]
    else declined

-- The loop of `negotiateStartup`. Each round reads eight bytes.
unfoldable pub negotiate :
    ℕ → Option (Bytes → Option Bytes) → Bytes → Bool → Bytes → Result StartupError Negotiated
unfolding answer
negotiate zero tls sent encrypted bs = err out_of_fuel
negotiate (suc fuel) tls sent encrypted bs = elim (read_full 8 bs) [
  | err e ↦ err (read_failed e)
  | ok (hdr, rest) ↦ elim (is_negotiation hdr) [
    | false ↦ ok (record { input = hdr ++ rest; sent = sent; encrypted = encrypted })
    | true ↦ elim (answer tls (be_uint (drop 4 hdr)) rest) [
      | declined ↦ negotiate fuel tls (sent ++ (b'N' ∷ [])) encrypted rest
      | accepted plain ↦ negotiate fuel tls (sent ++ (b'S' ∷ [])) true plain
      | broken ↦ err handshake_failed
    ]
  ]
]

error_field : ℕ → Bytes → Bytes
error_field field val = field ∷ (val ++ (0 ∷ []))

unfoldable pub write_client_error : Bytes → Bytes → Bytes
unfolding error_field
write_client_error sqlstate message = write_message (record {
  typ = msg_error_response;
  payload =
      error_field b'S' (codes "FATAL")
      ++ (error_field b'V' (codes "FATAL")
          ++ (error_field b'C' sqlstate ++ (error_field b'M' message ++ (0 ∷ []))));
})
