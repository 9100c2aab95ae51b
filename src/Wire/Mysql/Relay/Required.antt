-- ===== src/Wire/Mysql/Relay/Required.antt =====
-- internal/wire/mysql/mysql.go: with TLS required no login of a client reaches the server in the clear.
use Prim.Native.Nat.{bit_or}
use skybridge.Prelude.{
  ℕ, ◌+◌, ◌%◌, ◌≡◌, refl, ◌∙◌, ◌⊎◌, inl, inr, true, false, ◌&&◌, Option, some, [], ◌++◌, Bytes,
  take, drop, length, leb, has_bit, Result, ok, err, Bool-cases, Option-cases, append-nil, ap,
}
use skybridge.Prelude.Endian.{put_le}
use skybridge.Prelude.Talk.{emit, guard, return, ◌>>=◌, ◌>>◌}
use skybridge.Wire.Mysql.Packet.{write_packet}
use skybridge.Wire.Mysql.Handshake.{ssl_request_len, server_supports_ssl}
use skybridge.Wire.Mysql.Results.{cap_client_protocol41, cap_client_ssl}
use skybridge.Wire.Mysql.Relay.{
  StartError, start_handshake, with_ssl, start_upstream_tls, response_caps, Start, passthrough,
  relayed, start_session,
}

-- What the agent sends in the clear to ask for TLS: the client's capabilities with CLIENT_SSL, and the
-- rest of the first 32 bytes of its response, which do not reach to its name.
pub request : ℕ → Bytes → Bytes
request cseq cpayload =
    write_packet cseq
      (put_le 4 (bit_or (response_caps cpayload) 0x00000800) ++ drop 4 (take 32 cpayload))

-- The client's response with CLIENT_SSL, under the next number.
pub response : ℕ → Bytes → Bytes
response cseq cpayload =
    write_packet ((cseq + 1) % 256)
      (put_le 4 (bit_or (response_caps cpayload) 0x00000800) ++ drop 4 cpayload)

-- A response that asks for TLS itself was sent as it came. From any other, nothing was sent, or the
-- request; or the handshake `f` is done, the request is followed by the response inside TLS, and the
-- sequence numbers are behind by one.
pub IsPrivate :
    (Bytes → Option Bytes)
    → (Bytes → Bytes)
    → ℕ
    → Bytes
    → Bytes
    → Bytes × Result StartError (Start × Bytes)
    → Type 0
IsPrivate f seal cseq cpayload bs (sent, err e) =
    (has_bit 11 (response_caps cpayload) ≡ false) × ((sent ≡ []) ⊎ (sent ≡ request cseq cpayload))
IsPrivate f seal cseq cpayload bs (sent, ok (passthrough, rest)) =
    (has_bit 11 (response_caps cpayload) ≡ true) × (sent ≡ write_packet cseq cpayload) × (rest ≡ bs)
IsPrivate f seal cseq cpayload bs (sent, ok (relayed offset, rest)) =
    (has_bit 11 (response_caps cpayload) ≡ false)
    × (offset ≡ 1)
    × (f bs ≡ some rest)
    × (sent ≡ request cseq cpayload ++ seal (response cseq cpayload))

-- With TLS required the response of a client that does not set CLIENT_SSL, which holds its login, is
-- sent to the server inside TLS only, whatever the server's greeting, the response and the bytes of the
-- server: behind a handshake, or not at all. A response with CLIENT_SSL, by which the client asks the
-- server for TLS, is sent as it came, and the session goes on as a passthrough.
pub start_session-IsPrivate :
    (f : Bytes → Option Bytes) (seal : Bytes → Bytes) (greeting : Bytes) (cseq : ℕ)
    (cpayload : Bytes) (bs : Bytes)
    → IsPrivate f seal cseq cpayload bs (start_session f seal (some true) greeting cseq cpayload bs)
unfolding IsPrivate request response start_session start_upstream_tls with_ssl start_handshake emit
    guard return ◌>>=◌ ◌>>◌
start_session-IsPrivate f seal greeting cseq cpayload bs =
    let caps : ℕ = response_caps cpayload in
    elim (Bool-cases (has_bit cap_client_ssl caps)) [
      | inl own ↦ rw (own, start_session) (own, append-nil (write_packet cseq cpayload), refl)
      | inr other ↦
          elim (Bool-cases (
            server_supports_ssl greeting
            && (has_bit cap_client_protocol41 caps && leb ssl_request_len (length cpayload)))) [
              | inr e ↦ rw (other, start_session) (rw (e, start_upstream_tls) (other, inl refl))
              | inl e ↦ elim (Option-cases (f bs)) [
                | inl e' ↦
                    rw (other, start_session)
                      (rw (e, e', start_upstream_tls, start_handshake) (other, inr (append-nil _)))
                | inr (secured, e') ↦
                    rw (other, start_session)
                      (rw (e, e', start_upstream_tls, start_handshake)
                        (
                          other,
                          refl,
                          e',
                          append-nil _ ∙ ap (request cseq cpayload ++◌) (append-nil _),
                        ))
              ]
            ]
    ]
