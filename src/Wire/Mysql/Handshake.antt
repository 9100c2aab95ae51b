-- ===== src/Wire/Mysql/Handshake.antt =====
-- internal/wire/mysql/mysql.go: whether TLS to the server can be started.
use skybridge.Prelude.{
  ℕ, Bool, false, not, Option, none, some, [], ◌∷◌, ltb, ◌==◌, if◌then◌else◌, has_bit, Bytes,
  length, take, drop, cut_zero,
}
use skybridge.Prelude.Endian.{le_uint}
use skybridge.Wire.Mysql.Results.{cap_client_ssl, cap_client_protocol41}

-- `sslRequestLen`
abbrev pub ssl_request_len : ℕ
ssl_request_len = 32

-- What follows the version string: connection id, eight bytes of data, a filler and the low flags.
supports_behind : Option (Bytes × Bytes) → Bool
supports_behind none = false
supports_behind (some (name, rest)) =
    if ltb (length rest) 15 then false else has_bit cap_client_ssl (le_uint (take 2 (drop 13 rest)))

unfoldable pub server_supports_ssl : Bytes → Bool
unfolding supports_behind cut_zero
server_supports_ssl [] = false
server_supports_ssl (b ∷ greeting) =
    if not (b == 0x0A) then false else supports_behind (cut_zero greeting)

pub data TlsUnavailable : Type 0 where
  not_advertised not_protocol41 response_too_short unavailable : TlsUnavailable

unfoldable pub tls_unavailable_reason : Bytes → ℕ → Bytes → TlsUnavailable
unfolding server_supports_ssl
tls_unavailable_reason greeting caps cpayload =
    if not (server_supports_ssl greeting)
    then not_advertised
    else if not (has_bit cap_client_protocol41 caps)
    then not_protocol41
    else if ltb (length cpayload) ssl_request_len
    then response_too_short
    else unavailable
