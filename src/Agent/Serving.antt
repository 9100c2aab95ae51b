-- ===== src/Agent/Serving.antt =====
-- internal/agent/agent.go and clienttls.go: how a stream of the tunnel is connected to its target, up to
-- the proxying of the session. `R` is the type of a pool of trust roots.
pub mod Protected
use skybridge.Prelude.{
  Bool, true, false, Option, none, some, List, [], ◌∷◌, Bytes, if◌then◌else◌, bytes_equal, Result,
  ok, err,
}
use skybridge.Prelude.Text.{codes, Unicode}
use skybridge.Edge.Policy.{is_in}
use skybridge.Tunnel.Control.{Target}
use skybridge.Wire.Postgres.UpstreamTls.{Link, UpstreamTlsError}
use skybridge.Agent.{Config}
use skybridge.Agent.Session.{StreamError, target_of_stream}
use skybridge.Agent.UpstreamTls.{
  Policy, TlsConfig, Engine, postgres_engine, mongo_engine, mysql_engine, configure_engine,
  start_upstream_tls,
}

pub data ServeError : Type 0 where
  no_target : StreamError → ServeError
  unsupported : Bytes → ServeError
  dial_failed : ServeError
  tls_failed : UpstreamTlsError → ServeError

-- What `proxyConn` is called with: the target, its engine, the connection to it and the bytes that the
-- database will send over that connection.
pub record Session (R : Type 0) : Type 0 where
  pub target : Target
  pub engine : Engine R
  pub upstream : Link (TlsConfig R)
  pub input : Bytes

-- TLS towards the client aside.
unfoldable pub engine_factory : {R : Type 0} → Bytes → Option (Engine R)
unfolding is_in bytes_equal
engine_factory db_type =
    if is_in db_type (codes "postgres" ∷ codes "postgresql" ∷ [])
    then some postgres_engine
    else if bytes_equal db_type (codes "mysql")
    then some (mysql_engine none)
    else if is_in db_type (codes "mongodb" ∷ codes "mongo" ∷ [])
    then some mongo_engine
    else none

module _ {R : Type 0} (u : Unicode) (split : Bytes → Option Bytes)
    (f : TlsConfig R → Bytes → Option Bytes) (policy : Option (Policy R)) where
  abbrev pub with_session :
      Target
      → Engine R
      → Bytes × Result UpstreamTlsError (Link (TlsConfig R) × Bytes)
      → Bytes × Result ServeError (Session R)
  with_session t e (sent, err x) = (sent, err (tls_failed x))
  with_session t e (sent, ok (link, input)) =
      (sent, ok (record { target = t; engine = e; upstream = link; input = input }))

  -- What is sent to the database before the session is proxied, and the session. `dial` gives what a
  -- database sends over a connection to it.
  unfoldable pub connect_target :
      (Bytes → Option Bytes) → Target → Option (Engine R) → Bytes × Result ServeError (Session R)
  unfolding configure_engine start_upstream_tls
  connect_target dial t none = ([], err (unsupported t.db_type))
  connect_target dial t (some e) = elim (dial t.addr) [
    | none ↦ ([], err dial_failed)
    | some input ↦
        with_session t (configure_engine split policy e t.addr)
          (start_upstream_tls f u split policy t.db_type t.addr input)
  ]

  unfoldable pub serve_stream :
      Config → (Bytes → Option Bytes) → Option Bytes → Bytes × Result ServeError (Session R)
  unfolding connect_target engine_factory target_of_stream
  serve_stream cfg dial meta = elim (target_of_stream cfg meta) [
    | err x ↦ ([], err (no_target x))
    | ok t ↦ connect_target dial t (engine_factory t.db_type)
  ]
