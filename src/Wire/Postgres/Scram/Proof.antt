-- ===== src/Wire/Postgres/Scram/Proof.antt =====
-- internal/wire/postgres/auth.go, `scramClientExchange`: what the server has shown when it succeeds.
use skybridge.Prelude.{◌≡◌, true, Option, some, Bytes, ok}
use skybridge.Prelude.Dict.{get_text}
use skybridge.Prelude.Text.{codes, has_prefix}
use skybridge.Wire.Postgres.Auth.{
  scram_rejected, proof_rejected, expected_continue, expected_final, auth_sasl_continue,
  auth_sasl_final,
}
use skybridge.Wire.Postgres.Scram.{
  Crypto, ServerFirst, scram_sha256, mechanism_offered, parse_scram_attrs, iteration_count,
  read_sasl, auth_message, salted_password, server_signature,
}

-- The server's first message, as far as the client takes it.
pub record Understood (c : Crypto) (client_nonce text : Bytes) (first : ServerFirst) : Type 0 where
  pub nonce_is : first.nonce ≡ get_text (codes "r") (parse_scram_attrs text)
  pub own_nonce : has_prefix first.nonce client_nonce ≡ true
  pub salt_is : c.decode64 (get_text (codes "s") (parse_scram_attrs text)) ≡ some first.salt
  pub iterations_are :
      iteration_count (get_text (codes "i") (parse_scram_attrs text)) ≡ some first.iterations

-- The server offered SCRAM-SHA-256, repeated the client's nonce before its own part, and signed the
-- whole exchange with a key that it computes from the password.
pub record Proved (c : Crypto) (random : Option Bytes) (payload password bs : Bytes) : Type 0 where
  pub raw : Bytes
  pub server_first : Bytes
  pub first : ServerFirst
  pub server_final : Bytes
  pub between : Bytes
  pub rest : Bytes
  pub offered : mechanism_offered payload scram_sha256 ≡ true
  pub drawn : random ≡ some raw
  pub reads_first :
      (read_sasl auth_sasl_continue scram_rejected expected_continue bs).1
      ≡ ok (server_first, between)
  pub understood : Understood c (c.encode64 raw) server_first first
  pub reads_final :
      (read_sasl auth_sasl_final proof_rejected expected_final between).1 ≡ ok (server_final, rest)
  pub signed :
      c.decode64 (get_text (codes "v") (parse_scram_attrs server_final))
      ≡ some (
          server_signature c
            (salted_password c password first)
            (auth_message c (c.encode64 raw) server_first first.nonce))
