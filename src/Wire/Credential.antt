-- ===== src/Wire/Credential.antt =====
-- internal/wire/wire.go: the credential that the agent logs in with, and the database it asks for.
use skybridge.Prelude.{[], ◌∷◌, Bytes}
use skybridge.Prelude.Text.{Unicode, trim_space}

pub record UpstreamCredential : Type 0 where
  pub username : Bytes
  pub password : Bytes
  pub database : Bytes

-- The database of the credential, or the one that the client asked for.
unfoldable pub database_for : Unicode → UpstreamCredential → Bytes → Bytes
database_for u creds startup_database = elim (trim_space u creds.database) [
  | [] ↦ startup_database
  | b ∷ db ↦ b ∷ db
]
