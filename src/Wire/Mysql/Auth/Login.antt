-- ===== src/Wire/Mysql/Auth/Login.antt =====
-- internal/wire/mysql/auth.go, `ProxyInject`: the login as a whole, up to the copying of the session.
use skybridge.Prelude.{ℕ, Bool, Option, none, some, [], ◌++◌, Bytes, Result, ok, err}
use skybridge.Prelude.Text.{codes, Unicode}
use skybridge.Wire.Credential.{UpstreamCredential, database_for}
use skybridge.Wire.Mysql.Packet.{write_packet}
use skybridge.Wire.Mysql.Auth.{ClientHandshake, client_error, ok_payload}
use skybridge.Wire.Mysql.Auth.Upstream.{
  Hashes, Tls, LoginError, authenticate_upstream, terminate_client,
}

pub data InjectError : Type 0 where
  client_failed : LoginError → InjectError
  denied : InjectError
  upstream_failed : LoginError → InjectError

-- What each side is sent, and the bytes that each side has left for the session.
pub record Injected : Type 0 where
  pub to_client : Bytes
  pub to_server : Bytes
  pub outcome : Result InjectError (Bytes × Bytes)

unfoldable pub denial : ℕ → Bytes → Bytes
denial seq message = client_error seq 1045 (codes "28000") message

unfoldable pub answer_client :
    Bytes → ℕ → Bytes → Bytes × Result LoginError (Unit {0} × Bytes) → Injected
unfolding denial
answer_client sent seq client (out, err e) = record {
  to_client = sent ++ denial seq (codes "curlix: upstream authentication failed");
  to_server = out;
  outcome = err (upstream_failed e);
}
answer_client sent seq client (out, ok (_, server)) = record {
  to_client = sent ++ write_packet seq ok_payload;
  to_server = out;
  outcome = ok (client, server);
}

-- The resolver is given the user, the database and the token.
unfoldable pub resolve_login :
    (Bytes → Bytes → Bytes → Option UpstreamCredential)
    → (UpstreamCredential → Bytes → Bytes × Result LoginError (Unit {0} × Bytes))
    → Bytes × Result LoginError ((ClientHandshake × Bytes) × Bytes)
    → Injected
unfolding answer_client
resolve_login resolve upstream (sent, err e) = record {
  to_client = sent;
  to_server = [];
  outcome = err (client_failed e);
}
resolve_login resolve upstream (sent, ok ((info, token), client)) =
    elim (resolve info.username info.database token) [
      | none ↦ record {
        to_client = sent ++ denial info.next_seq (codes "curlix: access denied for this session");
        to_server = [];
        outcome = err denied;
      }
      | some creds ↦ answer_client sent info.next_seq client (upstream creds info.database)
    ]

unfoldable pub proxy_inject :
    Unicode
    → Hashes
    → Tls
    → Tls
    → Bool
    → Option Bytes
    → (Bytes → Bytes → Bytes → Option UpstreamCredential)
    → Bytes
    → Bytes
    → Injected
proxy_inject u h client_tls upstream_tls required random resolve client server =
    resolve_login resolve
      (λ creds database.
        authenticate_upstream h upstream_tls required creds.username creds.password
          (database_for u creds database) server)
      (terminate_client client_tls random client)
