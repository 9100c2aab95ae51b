-- ===== src/Agent/UpstreamTls/Encrypts.antt =====
-- internal/agent/upstreamtls.go and internal/wire/postgres/upstream_tls.go: a policy that requires TLS
-- ends on a TLS connection, or in an error.
use skybridge.Prelude.{
  ℕ, ◌≡◌, refl, ◌⊎◌, inl, inr, Bool, true, false, Option, some, [], ◌∷◌, ◌++◌, ◌||◌, ◌==◌, Bytes,
  bytes_equal, bytes_equal_iff, Bool-cases, Option-cases, Result, ok, err,
}
use skybridge.Prelude.Text.{codes, Unicode, trim_space, to_lower}
use skybridge.Prelude.Talk.{return, fail, receive, emit, ◌>>=◌, ◌>>◌}
use skybridge.Edge.Policy.{is_in}
use skybridge.Wire.Postgres.UpstreamTls
use skybridge.Wire.Postgres.UpstreamTls.{
  Link, plaintext, encrypted, UpstreamTlsError, ssl_request, read_reply, start_handshake, on_reply,
}
use skybridge.Agent.UpstreamTls.{
  Policy, TlsConfig, enabled, required, config_for, host_only, is_named, is_postgres, is_mongo,
  start_tls, start_upstream_tls,
}

-- What was sent in the clear: nothing, or PostgreSQL's request for TLS.
abbrev pub IsRequest : Bytes → Type 0
IsRequest sent = (sent ≡ []) ⊎ (sent ≡ ssl_request)

-- A conversation that ends on a TLS connection, or in an error, and sends no more than the request.
unfoldable pub Encrypts :
    {R : Type 0}
    → TlsConfig R
    → Bytes × Result UpstreamTlsError (Link (TlsConfig R) × Bytes)
    → Type 0
Encrypts cfg (sent, err e) = IsRequest sent
Encrypts cfg (sent, ok (link, rest)) = IsRequest sent × (link ≡ encrypted cfg)

module _ {R : Type 0} (f : TlsConfig R → Bytes → Option Bytes) (cfg : TlsConfig R) where
  start_handshake-Encrypts : (bs : Bytes) → Encrypts cfg (start_handshake f cfg bs)
  unfolding Encrypts start_handshake
  start_handshake-Encrypts bs = elim (Option-cases (f cfg bs)) [
    | inl e ↦ rw (e, start_handshake) (inl refl)
    | inr (secured, e) ↦ rw (e, start_handshake) (inl refl, refl)
  ]

  on_reply-Encrypts :
      (reply : ℕ) (bs : Bytes)
      → Encrypts cfg
          (ssl_request ++ (on_reply f cfg true reply bs).0, (on_reply f cfg true reply bs).1)
  unfolding Encrypts on_reply start_handshake fail
  on_reply-Encrypts reply bs = elim (Bool-cases (reply == b'S')) [
    | inr e ↦ elim (Bool-cases (reply == b'N')) [
      | inl e' ↦ rw (e, e', on_reply) (inr refl)
      | inr e' ↦ rw (e, e', on_reply) (inr refl)
    ]
    | inl e ↦ elim (Option-cases (f cfg bs)) [
      | inl e' ↦ rw (e, e', on_reply, start_handshake) (inr refl)
      | inr (secured, e') ↦ rw (e, e', on_reply, start_handshake) (inr refl, refl)
    ]
  ]

  postgres-Encrypts : (bs : Bytes) → Encrypts cfg (UpstreamTls.start_upstream_tls f cfg true bs)
  unfolding Encrypts UpstreamTls.start_upstream_tls emit receive read_reply ◌>>=◌ ◌>>◌
  postgres-Encrypts [] = inr refl
  postgres-Encrypts (reply ∷ bs) = on_reply-Encrypts reply bs

pub required-enabled : {R : Type 0} (p : Policy R) → required p ≡ true → enabled (some p) ≡ true
unfolding required enabled is_in bytes_equal
required-enabled p h = elim (Bool-cases (bytes_equal p.mode [])) [
  | inr e ↦ rw e refl
  | inl e ↦
      let never : required p ≡ false = rw ((bytes_equal_iff p.mode []).0 e) refl in absurd (cc)
]

pub or_true : (b : Bool) → (b || true) ≡ true
or_true true = refl
or_true false = refl

module _ {R : Type 0} (u : Unicode) (split : Bytes → Option Bytes)
    (f : TlsConfig R → Bytes → Option Bytes) (p : Policy R) (needed : required p ≡ true) where
  pub start_upstream_tls-Encrypts :
      (db_type addr bs : Bytes)
      → (is_postgres u db_type || is_mongo u db_type) ≡ true
      → Encrypts
          (config_for p (host_only split addr))
          (start_upstream_tls f u split (some p) db_type addr bs)
  unfolding start_upstream_tls start_tls
  start_upstream_tls-Encrypts db_type addr bs named =
      let on = required-enabled p needed in
      let cfg = config_for p (host_only split addr) in
      elim (Bool-cases (is_postgres u db_type)) [
        | inl e ↦ rw (on, e, needed, start_upstream_tls, start_tls) (postgres-Encrypts f cfg bs)
        | inr e ↦
            rw (on, e, (rw e at named), start_upstream_tls, start_tls)
              (start_handshake-Encrypts f cfg bs)
      ]

  pub start_upstream_tls_mysql :
      (db_type addr bs : Bytes)
      → db_type ≡ codes "mysql"
      → start_upstream_tls f u split (some p) db_type addr bs ≡ ([], ok (plaintext, bs))
  unfolding start_upstream_tls start_tls is_postgres is_mongo is_named to_lower trim_space
      bytes_equal return
  start_upstream_tls_mysql db_type addr bs e = rw (e, required-enabled p needed) refl
