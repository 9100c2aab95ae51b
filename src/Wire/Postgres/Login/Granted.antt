-- ===== src/Wire/Postgres/Login/Granted.antt =====
-- internal/wire/postgres/postgres.go, `ProxyInject`: whom the agent lets in.
use skybridge.Prelude.{◌≡◌, Option, some, Bytes, Result, ok}
use skybridge.Prelude.Dict.{Dict, get_text}
use skybridge.Prelude.Text.{codes}
use skybridge.Wire.Postgres.Auth.{AuthError}
use skybridge.Wire.Credential.{UpstreamCredential}

module _ (resolve : Dict Bytes → Bytes → Option UpstreamCredential)
    (upstream : UpstreamCredential → Bytes → Bytes × Result AuthError (Unit {0} × Bytes)) where
  -- The client gave a token that the resolver takes for a credential, and the server took the
  -- credential.
  pub record Admitted (x : Bytes × Result AuthError ((Dict Bytes × Bytes) × Bytes)) : Type 0 where
    pub startup : Dict Bytes
    pub token : Bytes
    pub client_rest : Bytes
    pub creds : UpstreamCredential
    pub server_rest : Bytes
    pub gave : x.1 ≡ ok ((startup, token), client_rest)
    pub resolved : resolve startup token ≡ some creds
    pub accepted : (upstream creds (get_text (codes "database") startup)).1 ≡ ok (tt, server_rest)
