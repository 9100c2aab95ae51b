-- ===== src/Agent/UpstreamTls.antt =====
-- internal/agent/upstreamtls.go: TLS between the agent and a database. `R` is the type of a pool of
-- trust roots; crypto/x509, crypto/tls and net.SplitHostPort are parameters.
pub mod Encrypts
pub mod Protected
use skybridge.Prelude.{
  Bool, true, false, not, ◌&&◌, ◌||◌, Option, none, some, List, [], ◌∷◌, if◌then◌else◌, Bytes,
  bytes_equal, Result, ok, err,
}
use skybridge.Prelude.Text.{codes, Unicode, trim_space, to_lower}
use skybridge.Prelude.Talk.{Talk, return}
use skybridge.Edge.Policy.{is_in}
use skybridge.Agent.{Config}
use skybridge.Config.{upstream_tls_enabled}
use skybridge.Wire.Postgres.UpstreamTls
use skybridge.Wire.Postgres.UpstreamTls.{
  Link, plaintext, encrypted, UpstreamTlsError, start_handshake,
}

pub record Policy (R : Type 0) : Type 0 where
  pub mode : Bytes
  pub server_name : Bytes
  pub roots : Option R

-- The pool of the certificates in a PEM text, `none` where it has none, and the system's pool.
pub record Trust (R : Type 0) : Type 0 where
  pub parse_pem : Bytes → Option R
  pub system : Result Bytes R

pub data PolicyError : Type 0 where
  bad_mode : Bytes → PolicyError
  bad_pem : PolicyError
  no_system_roots : Bytes → PolicyError

abbrev pub valid_modes : List Bytes
valid_modes = codes "prefer" ∷ codes "require" ∷ codes "verify-ca" ∷ codes "verify-full" ∷ []

abbrev pub verify_modes : List Bytes
verify_modes = codes "verify-ca" ∷ codes "verify-full" ∷ []

module _ {R : Type 0} where
  unfoldable pub roots_of : Trust R → Bytes → Bytes → Result PolicyError (Option R)
  unfolding is_in
  roots_of x (b ∷ pem) mode = elim (x.parse_pem (b ∷ pem)) [
    | none ↦ err bad_pem
    | some pool ↦ ok (some pool)
  ]
  roots_of x [] mode =
      if is_in mode verify_modes
      then elim x.system [ err msg ↦ err (no_system_roots msg) | ok pool ↦ ok (some pool) ]
      else ok none

  unfoldable pub policy_for :
      Unicode
      → Config
      → Bytes
      → Result PolicyError (Option R)
      → Result PolicyError (Option (Policy R))
  policy_for u cfg mode (err e) = err e
  policy_for u cfg mode (ok roots) = ok (
      some (record {
        mode = mode;
        server_name = trim_space u cfg.upstream_tls_server_name;
        roots = roots;
      }))

  -- `none` where upstream TLS is disabled.
  unfoldable pub build_upstream_tls_policy :
      Unicode → Trust R → Config → Result PolicyError (Option (Policy R))
  unfolding upstream_tls_enabled is_in roots_of policy_for
  build_upstream_tls_policy u x cfg =
      let mode = to_lower u (trim_space u cfg.upstream_tls_mode) in
      if not (upstream_tls_enabled u cfg)
      then ok none
      else if not (is_in mode valid_modes)
      then err (bad_mode cfg.upstream_tls_mode)
      else policy_for u cfg mode (roots_of x cfg.upstream_tls_ca_pem mode)

  unfoldable pub enabled : Option (Policy R) → Bool
  unfolding bytes_equal
  enabled none = false
  enabled (some p) = not (bytes_equal p.mode [])

  -- Of a policy that is not nil; nil requires nothing.
  unfoldable pub required : Policy R → Bool
  unfolding is_in
  required p = is_in p.mode (codes "require" ∷ codes "verify-ca" ∷ codes "verify-full" ∷ [])

unfoldable pub name_or : Bytes → Bytes → Bytes
name_or [] host = host
name_or (b ∷ bs) host = b ∷ bs

-- What the handshake checks of the server's certificate: nothing, its chain up to some roots, or its
-- chain and the name of the server. Roots of `none` are the system's.
pub data Verification (R : Type 0) : Type 0 where
  unchecked : Verification R
  chain : Option R → Verification R
  chain_and_name : Option R → Verification R

pub record TlsConfig (R : Type 0) : Type 0 where
  pub server_name : Bytes
  pub verification : Verification R

module _ {R : Type 0} where
  unfoldable pub verification_for : Bytes → Option R → Verification R
  unfolding is_in bytes_equal
  verification_for mode roots =
      if is_in mode (codes "prefer" ∷ codes "require" ∷ [])
      then unchecked
      else if bytes_equal mode (codes "verify-ca")
      then chain roots
      else if bytes_equal mode (codes "verify-full")
      then chain_and_name roots
      else chain_and_name none

  unfoldable pub config_for : Policy R → Bytes → TlsConfig R
  unfolding name_or verification_for
  config_for p host = record {
    server_name = name_or p.server_name host;
    verification = verification_for p.mode p.roots;
  }

-- The text is one of some names, in lower case and without the space around it.
unfoldable pub is_named : Unicode → Bytes → List Bytes → Bool
unfolding is_in
is_named u db_type names = is_in (to_lower u (trim_space u db_type)) names

unfoldable pub is_postgres : Unicode → Bytes → Bool
unfolding is_named
is_postgres u db_type = is_named u db_type (codes "postgres" ∷ codes "postgresql" ∷ [])

unfoldable pub is_mongo : Unicode → Bytes → Bool
unfolding is_named
is_mongo u db_type = is_named u db_type (codes "mongodb" ∷ codes "mongo" ∷ [])

unfoldable pub is_mysql : Unicode → Bytes → Bool
unfolding is_named
is_mysql u db_type = is_named u db_type (codes "mysql" ∷ [])

-- `split` is net.SplitHostPort's host.
unfoldable pub host_only : (Bytes → Option Bytes) → Bytes → Bytes
host_only split addr = elim (split addr) [ some host ↦ host | none ↦ addr ]

-- The engines, as far as TLS on their way to the database goes: MySQL's has a configuration for its
-- own handshake, with whether it is required.
pub data Engine (R : Type 0) : Type 0 where
  postgres_engine : Engine R
  mongo_engine : Engine R
  mysql_engine : Option (TlsConfig R × Bool) → Engine R

module _ {R : Type 0} (f : TlsConfig R → Bytes → Option Bytes) where
  unfoldable pub start_tls :
      Unicode → Policy R → Bytes → Bytes → Talk UpstreamTlsError (Link (TlsConfig R))
  unfolding is_postgres is_mongo config_for required UpstreamTls.start_upstream_tls start_handshake
      return
  start_tls u p db_type host =
      if is_postgres u db_type
      then UpstreamTls.start_upstream_tls f (config_for p host) (required p)
      else if is_mongo u db_type
      then start_handshake f (config_for p host)
      else return plaintext

  unfoldable pub start_upstream_tls :
      Unicode
      → (Bytes → Option Bytes)
      → Option (Policy R)
      → Bytes
      → Bytes
      → Talk UpstreamTlsError (Link (TlsConfig R))
  unfolding start_tls host_only return enabled
  start_upstream_tls u split none db_type dial_addr = return plaintext
  start_upstream_tls u split (some p) db_type dial_addr =
      if enabled (some p)
      then start_tls u p db_type (host_only split dial_addr)
      else return plaintext

unfoldable pub configure_engine :
    {R : Type 0} → (Bytes → Option Bytes) → Option (Policy R) → Engine R → Bytes → Engine R
unfolding config_for host_only required enabled
configure_engine split (some p) (mysql_engine own) dial_addr =
    if enabled (some p)
    then mysql_engine (some (config_for p (host_only split dial_addr), required p))
    else mysql_engine own
configure_engine split _ engine dial_addr = engine
