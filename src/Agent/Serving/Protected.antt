-- ===== src/Agent/Serving/Protected.antt =====
-- internal/agent/agent.go and upstreamtls.go: with a mode that requires TLS nothing but the request for
-- it leaves the agent unencrypted.
use skybridge.Prelude.{
  ◌≡◌, refl, ◌⊎◌, inl, inr, arith, true, Option, none, some, [], ◌∷◌, Bytes, bytes_equal,
  bytes_equal_iff, Bool-cases, Option-cases, Result-cases, Result, ok, err,
}
use skybridge.Prelude.Text.{codes, Unicode, trim_space, to_lower}
use skybridge.Edge.Policy.{is_in}
use skybridge.Tunnel.Control.{Target}
use skybridge.Wire.Postgres.UpstreamTls.{Link, encrypted, UpstreamTlsError}
use skybridge.Agent.{Config}
use skybridge.Agent.Session.{target_of_stream}
use skybridge.Agent.UpstreamTls.{
  Policy, TlsConfig, Engine, postgres_engine, mongo_engine, mysql_engine, required, config_for,
  host_only, is_named, is_postgres, is_mongo, start_upstream_tls, configure_engine,
}
use skybridge.Agent.UpstreamTls.Encrypts.{
  IsRequest, Encrypts, or_true, required-enabled, start_upstream_tls-Encrypts,
  start_upstream_tls_mysql,
}
use skybridge.Agent.Serving.{
  ServeError, Session, engine_factory, with_session, connect_target, serve_stream,
}

-- The upstream is a TLS connection under a configuration; or, for MySQL, where the engine negotiates TLS
-- itself, the engine has the configuration and does not go on without TLS.
pub IsProtected : {R : Type 0} → TlsConfig R → Engine R → Link (TlsConfig R) → Type 0
IsProtected cfg postgres_engine link = link ≡ encrypted cfg
IsProtected cfg mongo_engine link = link ≡ encrypted cfg
IsProtected cfg (mysql_engine own) link = own ≡ some (cfg, true)

-- A stream that is refused sends nothing but the request, and one that is served has a protected
-- session, under the configuration for the host of its target.
pub IsServed :
    {R : Type 0}
    → (Bytes → Option Bytes)
    → Policy R
    → Bytes × Result ServeError (Session R)
    → Type 0
IsServed split p (sent, err e) = IsRequest sent
IsServed split p (sent, ok s) =
    IsRequest sent × IsProtected (config_for p (host_only split s.target.addr)) s.engine s.upstream

two_names : (s a b : Bytes) → is_in s (a ∷ b ∷ []) ≡ true → (s ≡ a) ⊎ (s ≡ b)
unfolding is_in
two_names s a b h = ground (arith, bytes_equal_iff s a, bytes_equal_iff s b)

is_postgres_name :
    (u : Unicode) (s : Bytes)
    → is_in s (codes "postgres" ∷ codes "postgresql" ∷ []) ≡ true
    → is_postgres u s ≡ true
unfolding is_postgres is_named to_lower trim_space bytes_equal
is_postgres_name u s h = elim (two_names s (codes "postgres") (codes "postgresql") h) [
  | inl e ↦ rw e refl
  | inr e ↦ rw e refl
]

is_mongo_name :
    (u : Unicode) (s : Bytes)
    → is_in s (codes "mongodb" ∷ codes "mongo" ∷ []) ≡ true
    → is_mongo u s ≡ true
unfolding is_mongo is_named to_lower trim_space bytes_equal
is_mongo_name u s h = elim (two_names s (codes "mongodb") (codes "mongo") h) [
  | inl e ↦ rw e refl
  | inr e ↦ rw e refl
]

-- The engines, by the name of the type of database.
engine_names :
    {R : Type 0} (u : Unicode) (s : Bytes) (e : Engine R)
    → engine_factory s ≡ some e
    → (e ≡ postgres_engine) × (is_postgres u s ≡ true)
      ⊎ ((e ≡ mongo_engine) × (is_mongo u s ≡ true) ⊎ (e ≡ mysql_engine none) × (s ≡ codes "mysql"))
unfolding engine_factory
engine_names u s e h = elim (Bool-cases (is_in s (codes "postgres" ∷ codes "postgresql" ∷ []))) [
  | inl a ↦ let made = rw (a, engine_factory) at h in inl (cc, is_postgres_name u s a)
  | inr a ↦ elim (Bool-cases (bytes_equal s (codes "mysql"))) [
    | inl b ↦
        let made = rw (a, b, engine_factory) at h in
        inr (inr (cc, (bytes_equal_iff s (codes "mysql")).0 b))
    | inr b ↦ elim (Bool-cases (is_in s (codes "mongodb" ∷ codes "mongo" ∷ []))) [
      | inl c ↦ let made = rw (a, b, c, engine_factory) at h in inr (inl (cc, is_mongo_name u s c))
      | inr c ↦ let never = rw (a, b, c, engine_factory) at h in absurd (cc)
    ]
  ]
]

module _ {R : Type 0} (u : Unicode) (split : Bytes → Option Bytes)
    (f : TlsConfig R → Bytes → Option Bytes) (p : Policy R) (needed : required p ≡ true) where
  -- How a session is protected behind a start of TLS that encrypts.
  with_session-Encrypts :
      (t : Target) (e : Engine R) (r : Bytes × Result UpstreamTlsError (Link (TlsConfig R) × Bytes))
      → let cfg = config_for p (host_only split t.addr) in
        ((link : Link (TlsConfig R)) → link ≡ encrypted cfg → IsProtected cfg e link)
        → Encrypts (config_for p (host_only split t.addr)) r
        → IsServed split p (with_session u split f (some p) t e r)
  unfolding Encrypts IsServed
  with_session-Encrypts t e (sent, err x) protects h = h
  with_session-Encrypts t e (sent, ok (link, input)) protects (asked, same) =
      (asked, protects link same)

  connect_target-IsServed :
      (t : Target) (e : Engine R) (input : Bytes)
      → engine_factory t.db_type ≡ some e
      → IsServed split p (
          with_session u split f
            (some p)
            t
            (configure_engine split (some p) e t.addr)
            (start_upstream_tls f u split (some p) t.db_type t.addr input))
  unfolding configure_engine IsProtected IsServed
  connect_target-IsServed t e input made = elim (engine_names u t.db_type e made) [
    | inl (same, named) ↦ rw same (
        with_session-Encrypts t postgres_engine _ (λ link h. h)
          (start_upstream_tls-Encrypts u split f p needed t.db_type t.addr input (rw named refl)))
    | inr (inl (same, named)) ↦ rw same (
        with_session-Encrypts t mongo_engine _ (λ link h. h)
          (start_upstream_tls-Encrypts u split f p needed t.db_type t.addr input
            (rw named (or_true _))))
    | inr (inr (same, named)) ↦
        rw
          (
            same,
            start_upstream_tls_mysql u split f p needed t.db_type t.addr input named,
            required-enabled p needed,
            needed,
          )
          (inl refl, refl)
  ]

  connect_target-Protected :
      (dial : Bytes → Option Bytes) (t : Target)
      → IsServed split p
          (connect_target u split f (some p) dial t (engine_factory {R = R} t.db_type))
  unfolding connect_target IsServed
  connect_target-Protected dial t = elim (Option-cases (engine_factory {R = R} t.db_type)) [
    | inl e ↦ rw e (inl refl)
    | inr (e, made) ↦ elim (Option-cases (dial t.addr)) [
      | inl closed ↦ rw (made, closed, connect_target) (inl refl)
      | inr (input, dialed) ↦
          rw (made, dialed, connect_target) (connect_target-IsServed t e input made)
    ]
  ]

  -- Under a policy that requires TLS a stream of the tunnel sends nothing to the database in the clear
  -- but PostgreSQL's request for TLS until its session is proxied, whatever the metadata, the target,
  -- and the bytes of the database; where the session is proxied, the connection to a PostgreSQL or
  -- MongoDB server is TLS under the configuration of the policy for the host, and the engine of MySQL
  -- has this configuration and requires it.
  pub serve_stream-IsServed :
      (cfg : Config) (dial : Bytes → Option Bytes) (meta : Option Bytes)
      → IsServed split p (serve_stream u split f (some p) cfg dial meta)
  unfolding serve_stream IsServed
  serve_stream-IsServed cfg dial meta = elim (Result-cases (target_of_stream cfg meta)) [
    | inl (t, found) ↦ rw (found, serve_stream) (connect_target-Protected dial t)
    | inr (x, refused) ↦ rw (refused, serve_stream) (inl refl)
  ]
