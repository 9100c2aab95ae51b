-- ===== src/Wire/Mysql/Relay.antt =====
-- internal/wire/mysql/mysql.go: `serverToClient`, and the start of TLS on the server's side.
-- The channel of queries is their number; how many the other direction has noted between two packets
-- of the server is an argument.
pub mod Pipelined
pub mod Ending
pub mod Required
use Prim.Native.Nat.{bit_or}
use skybridge.Prelude.{
  ℕ, zero, suc, ◌+◌, ◌%◌, Bool, true, false, not, ◌&&◌, ◌||◌, Option, none, some, List, [], ◌∷◌,
  ◌++◌, ltb, leb, ◌==◌, if◌then◌else◌, has_bit, Bytes, length, take, drop, min, ok, err,
}
use skybridge.Prelude.Endian.{put_le, le_uint}
use skybridge.Prelude.Talk.{Talk, return, emit, guard, ◌>>=◌, ◌>>◌}
use skybridge.Mask.{Masker}
use skybridge.Wire.Mysql.Packet.{Packet, read_packet, write_packet}
use skybridge.Wire.Mysql.Commands.{queries_cap}
use skybridge.Wire.Mysql.Handshake.{
  ssl_request_len, server_supports_ssl, TlsUnavailable, tls_unavailable_reason,
}
use skybridge.Wire.Mysql.Results.{
  Progress, complete, failed, out_of_fuel, behind, stop, echo, result_response,
  cap_client_protocol41, cap_client_ssl,
}

-- OK or ERR: the end of the connection phase.
unfoldable pub is_auth_result : Bytes → Bool
is_auth_result [] = false
is_auth_result (b ∷ payload) = b == 0x00 || b == 0xFF

-- The connection phase with an inserted TLS request: sequence numbers are shifted back by one.
unfoldable pub auth_phase : ℕ → Bytes → Progress
unfolding read_packet is_auth_result
auth_phase zero bs = stop [] bs out_of_fuel
auth_phase (suc fuel) bs = elim (read_packet bs) [
  | err e ↦ stop [] bs (failed e)
  | ok (p, rest) ↦
      let later = auth_phase fuel rest in
      let out : Bytes = write_packet ((p.seq + 255) % 256) p.payload in
      if is_auth_result p.payload then stop out rest complete else behind out later
]

-- `later` goes on behind a response that is complete.
unfoldable pub after_response : (Bytes → Progress) → Progress → Progress
after_response later r = elim r.ended [ complete ↦ behind r.written (later r.unread) | other ↦ r ]

-- One packet with the number of queries that are noted.
unfoldable pub on_packet : (ℕ → Bytes → Progress) → Bool → Masker → ℕ → Packet → Bytes → Progress
unfolding after_response
on_packet later deprecate_eof masker zero p rest = behind (echo p) (later 0 rest)
on_packet later deprecate_eof masker (suc queries) p rest = elim p.full [
  | true ↦ behind (echo p) (later queries rest)
  | false ↦
      after_response (later queries)
        (result_response (suc (length rest)) deprecate_eof masker p rest)
]

-- The queries noted with those that come before the next packet.
unfoldable pub noted : List ℕ → ℕ → ℕ
noted [] queries = queries
noted (n ∷ arrivals) queries = min queries_cap (queries + n)

unfoldable pub later_arrivals : List ℕ → List ℕ
later_arrivals [] = []
later_arrivals (n ∷ arrivals) = arrivals

unfoldable pub commands_loop : ℕ → Bool → Masker → List ℕ → ℕ → Bytes → Progress
unfolding read_packet on_packet
commands_loop zero deprecate_eof masker arrivals queries bs = stop [] bs out_of_fuel
commands_loop (suc fuel) deprecate_eof masker arrivals queries bs = elim (read_packet bs) [
  | err e ↦ stop [] bs (failed e)
  | ok (p, rest) ↦
      on_packet (commands_loop fuel deprecate_eof masker (later_arrivals arrivals)) deprecate_eof
        masker (noted arrivals queries) p rest
]

unfoldable pub command_phase : Bool → Masker → List ℕ → Bytes → Progress
command_phase deprecate_eof masker arrivals bs =
    commands_loop (suc (length bs)) deprecate_eof masker arrivals 0 bs

-- By the offset of the sequence numbers that the start of the connection has left.
unfoldable pub server_to_client : ℕ → Bool → Masker → List ℕ → Bytes → Progress
unfolding command_phase auth_phase
server_to_client zero deprecate_eof masker arrivals bs =
    command_phase deprecate_eof masker arrivals bs
server_to_client (suc offset) deprecate_eof masker arrivals bs =
    after_response (command_phase deprecate_eof masker arrivals) (auth_phase (suc (length bs)) bs)

pub data StartError : Type 0 where
  tls_required : TlsUnavailable → StartError
  handshake_failed : StartError

start_handshake : (Bytes → Option Bytes) → Talk StartError (Unit {0})
start_handshake f bs = elim (f bs) [
  | none ↦ ([], err handshake_failed)
  | some secured ↦ ([], ok (tt, secured))
]

-- The client's response with CLIENT_SSL set.
unfoldable pub with_ssl : ℕ → Bytes → Bytes
with_ssl caps payload = put_le 4 (bit_or caps 0x00000800) ++ drop 4 payload

-- The offset of the sequence numbers; `f` is the handshake of TLS, on what the server sends, and `seal`
-- what a write inside TLS puts onto the connection.
unfoldable pub start_upstream_tls :
    (Bytes → Option Bytes) → (Bytes → Bytes) → Bool → Bytes → ℕ → Bytes → ℕ → Talk StartError ℕ
unfolding server_supports_ssl start_handshake
start_upstream_tls f seal required greeting cseq cpayload caps =
    if server_supports_ssl greeting
      && (has_bit cap_client_protocol41 caps && leb ssl_request_len (length cpayload))
    then (do
      emit (write_packet cseq (with_ssl caps (take ssl_request_len cpayload)))
      start_handshake f
      emit (seal (write_packet ((cseq + 1) % 256) (with_ssl caps cpayload)))
      return 1)
    else (do
      guard (not required) (tls_required (tls_unavailable_reason greeting caps cpayload))
      emit (write_packet cseq cpayload)
      return 0)

-- The capability flags of the client's response.
unfoldable pub response_caps : Bytes → ℕ
response_caps cpayload = if ltb (length cpayload) 4 then 0 else le_uint (take 4 cpayload)

-- How `Proxy` goes on: a client that itself asks for TLS is relayed as it comes, any other by the two
-- directions, with the offset that they start from.
pub data Start : Type 0 where
  passthrough : Start
  relayed : ℕ → Start

-- What `Proxy` sends to the server up to the relay, on the client's response; `none` for an engine
-- without TLS.
unfoldable pub start_session :
    (Bytes → Option Bytes)
    → (Bytes → Bytes)
    → Option Bool
    → Bytes
    → ℕ
    → Bytes
    → Talk StartError Start
unfolding start_upstream_tls response_caps
start_session f seal tls greeting cseq cpayload =
    let caps : ℕ = response_caps cpayload in
    if has_bit cap_client_ssl caps
    then (do emit (write_packet cseq cpayload); return passthrough)
    else elim tls [
      | none ↦ do emit (write_packet cseq cpayload); return (relayed 0)
      | some required ↦ do
        offset ← start_upstream_tls f seal required greeting cseq cpayload caps
        return (relayed offset)
    ]
