-- ===== src/Tests/Postgres/Login.antt =====
-- The theorems on the PostgreSQL logins at concrete inputs, with hash functions of one byte.
use skybridge.Prelude.{ℕ, ◌≢◌, ◌++◌, none, some, [], ◌∷◌, Bytes, Option, err}
use skybridge.Prelude.Dict.{Dict}
use skybridge.Prelude.Endian.{put_be}
use skybridge.Prelude.Text.{codes}
use skybridge.Wire.Postgres.Auth.{
  authentication, startup_message, frontend, password_message, msg_authentication, auth_ok,
  auth_sasl_continue, auth_sasl_final, out_of_fuel,
}
use skybridge.Wire.Postgres.Scram.{Crypto, scram_sha256}
use skybridge.Wire.Credential.{UpstreamCredential}
use skybridge.Wire.Postgres.Login.{authenticate_upstream}
use skybridge.Wire.Postgres.Login.Ending.{authenticate_upstream-ends}
use skybridge.Tests.{ascii}

abbrev toy : Crypto
toy = record {
  md5 = λ m. 1 ∷ [];
  sha256 = λ m. 2 ∷ [];
  hmac_sha256 = λ k m. 3 ∷ [];
  encode64 = λ b. b;
  decode64 = some;
}

-- A message of the server with a code.
sasl_message : ℕ → Bytes → Bytes
sasl_message code text = frontend msg_authentication (put_be 4 code ++ text)

from_server : Bytes
from_server =
    sasl_message auth_sasl_continue (codes "r=nx,s=a,i=2")
    ++ sasl_message auth_sasl_final (codes "v=" ++ (3 ∷ []))

abbrev offer : Bytes
offer = scram_sha256 ++ (0 ∷ 0 ∷ [])

abbrev creds : UpstreamCredential
creds = record { username = codes "app"; password = codes "pw"; database = [] }

authenticate_upstream-ends_example :
    (authenticate_upstream ascii toy (λ n. none) creds (codes "db") from_server).1 ≢ err out_of_fuel
authenticate_upstream-ends_example =
    authenticate_upstream-ends ascii toy (λ n. none) creds (codes "db") from_server

abbrev resolver : Dict Bytes → Bytes → Option UpstreamCredential
resolver startup token = some creds

from_client : Bytes
from_client = startup_message (codes "ann") [] ++ password_message (codes "token")

lets_in : Bytes
lets_in = authentication auth_ok
