-- ===== src/Wire/Postgres/UpstreamTls.antt =====
-- internal/wire/postgres/upstream_tls.go: the agent asks a PostgreSQL server for TLS. `C` is the type of
-- a TLS configuration, and `f` is crypto/tls's client handshake under one, on what the server sends.
use skybridge.Prelude.{
  ℕ, Bool, Option, none, some, [], ◌∷◌, ◌==◌, if◌then◌else◌, Bytes, Result, ok, err,
}
use skybridge.Prelude.Talk.{Talk, return, fail, receive, emit, ◌>>=◌, ◌>>◌}

-- The connection that the engine goes on with, and the error of one that is given up.
pub data Link (C : Type 0) : Type 0 where
  plaintext : Link C
  encrypted : C → Link C

pub data UpstreamTlsError : Type 0 where
  no_reply handshake_failed tls_required : UpstreamTlsError
  unexpected_reply : ℕ → UpstreamTlsError

abbrev pub ssl_request : Bytes
ssl_request = 0 ∷ 0 ∷ 0 ∷ 8 ∷ 4 ∷ 210 ∷ 22 ∷ 47 ∷ []

unfoldable pub read_reply : Bytes → Result UpstreamTlsError (ℕ × Bytes)
read_reply [] = err no_reply
read_reply (b ∷ bs) = ok (b, bs)

module _ {C : Type 0} (f : C → Bytes → Option Bytes) where
  -- Behind the handshake the bytes of the connection are those inside TLS.
  unfoldable pub start_handshake : C → Talk UpstreamTlsError (Link C)
  start_handshake cfg bs = elim (f cfg bs) [
    | none ↦ ([], err handshake_failed)
    | some secured ↦ ([], ok (encrypted cfg, secured))
  ]

  unfoldable pub on_reply : C → Bool → ℕ → Talk UpstreamTlsError (Link C)
  unfolding start_handshake fail return
  on_reply cfg required reply =
      if reply == b'S'
      then start_handshake cfg
      else if reply == b'N'
      then (if required then fail tls_required else return plaintext)
      else fail (unexpected_reply reply)

  -- With a configuration, as the agent always gives one.
  unfoldable pub start_upstream_tls : C → Bool → Talk UpstreamTlsError (Link C)
  unfolding on_reply read_reply receive emit ◌>>=◌ ◌>>◌
  start_upstream_tls cfg required = do
    emit ssl_request
    reply ← receive read_reply
    on_reply cfg required reply
