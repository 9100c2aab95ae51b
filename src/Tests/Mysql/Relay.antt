-- ===== src/Tests/Mysql/Relay.antt =====
-- The theorems on the MySQL relay at concrete inputs.
use skybridge.Wire.Mysql.Relay.{start_session}
use skybridge.Wire.Mysql.Relay.Required.{IsPrivate, start_session-IsPrivate}
use skybridge.Prelude.{
  ℕ, ◌≡◌, ◌≢◌, refl, ◌++◌, ◌^◌, ◌<◌, arith, true, false, List, [], ◌∷◌, Bytes, length, some, err,
}
use skybridge.Prelude.Endian.{put_le}
use skybridge.Prelude.Reader.{eof}
use skybridge.Prelude.Text.{codes}
use skybridge.Mask.{noop}
use skybridge.Wire.Mysql.LenEnc.{out_of_range}
use skybridge.Wire.Mysql.Commands.{note_query}
use skybridge.Wire.Mysql.Commands.Verbatim.{write_packets, note_queries}
use skybridge.Wire.Mysql.Results.{failed, out_of_fuel, stop}
use skybridge.Wire.Mysql.Relay.{server_to_client}
use skybridge.Wire.Mysql.Relay.Pipelined.{server_to_client-pipelined}
use skybridge.Wire.Mysql.Relay.Ending.{server_to_client-ends}
use skybridge.Wire.Mysql.Auth.{parse_handshake_response}
use skybridge.Wire.Mysql.Auth.Overflow.{response, parse_handshake_response-overflow}

-- The answer to COM_PING, and the first packet of a result set.
abbrev replies : List (ℕ × Bytes)
replies = (1, 0 ∷ 0 ∷ 0 ∷ 2 ∷ 0 ∷ 0 ∷ 0 ∷ []) ∷ (1, 1 ∷ []) ∷ []

server_to_client-pipelined_example :
    server_to_client 0 true noop (1 ∷ []) (write_packets replies)
    ≡ stop (write_packets replies) [] (failed eof)
server_to_client-pipelined_example =
    server_to_client-pipelined true noop 1 (0 ∷ 0 ∷ 0 ∷ 2 ∷ 0 ∷ 0 ∷ 0 ∷ []) ((1, 1 ∷ []) ∷ []) refl
      (omega arith) ((omega arith, omega arith), tt)

-- COM_PING and a query behind it leave one query noted.
one_noted : note_queries ((0, 0x0E ∷ []) ∷ (0, 0x03 ∷ codes "SELECT 1") ∷ []) 0 ≡ 1
unfolding note_query
one_noted = refl

abbrev front : Bytes
front = put_le 4 0x00200008 ++ put_le 28 0

front_size : length front ≡ 32
unfolding put_le
front_size = refl

response_size : length (response front (codes "ann") (2 ^ 63) []) < 2 ^ 63
unfolding put_le
response_size = omega arith

parse_handshake_response-overflow_example :
    parse_handshake_response (response front (codes "ann") (2 ^ 63) []) 0x00200008
    ≡ err out_of_range
parse_handshake_response-overflow_example =
    parse_handshake_response-overflow front (codes "ann") (2 ^ 63) [] 0x00200008 front_size
      (refl, (refl, (refl, tt))) (omega arith) (omega arith) response_size refl refl

server_to_client-ends_example :
    (server_to_client 1 false noop (1 ∷ 0 ∷ []) (write_packets replies)).ended ≢ out_of_fuel
server_to_client-ends_example =
    server_to_client-ends 1 false noop (1 ∷ 0 ∷ []) (write_packets replies)

-- A server that offers TLS, and the response of a client.
abbrev tls_greeting : Bytes
tls_greeting = 10 ∷ 56 ∷ 0 ∷ 1 ∷ 0 ∷ 0 ∷ 0 ∷ 1 ∷ 2 ∷ 3 ∷ 4 ∷ 5 ∷ 6 ∷ 7 ∷ 8 ∷ 0 ∷ 0 ∷ 8 ∷ []

abbrev login : Bytes
login = put_le 4 512 ++ (put_le 28 0 ++ codes "alice")

start_session-IsPrivate_example :
    IsPrivate
      (λ bs. some bs)
      (23 ∷◌)
      1
      login
      (7 ∷ [])
      (start_session (λ bs. some bs) (23 ∷◌) (some true) tls_greeting 1 login (7 ∷ []))
start_session-IsPrivate_example =
    start_session-IsPrivate (λ bs. some bs) (23 ∷◌) tls_greeting 1 login (7 ∷ [])
