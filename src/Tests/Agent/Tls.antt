-- ===== src/Tests/Agent/Tls.antt =====
-- The theorems on TLS towards the databases, and on the fetched rules, at concrete inputs.
use skybridge.Prelude.{◌≡◌, refl, true, Option, none, some, [], ◌∷◌, Bytes, bytes_equal, ok}
use skybridge.Prelude.Text.{codes, trim_space, to_lower}
use skybridge.Agent.{Config}
use skybridge.Config.{upstream_tls_enabled}
use skybridge.Edge.Policy.{is_in}
use skybridge.Agent.UpstreamTls.{
  Policy, Trust, TlsConfig, required, build_upstream_tls_policy, roots_of, policy_for,
}
use skybridge.Agent.UpstreamTls.Protected.{IsPolicy, build_upstream_tls_policy-IsPolicy}
use skybridge.Agent.Serving.{serve_stream}
use skybridge.Agent.Serving.Protected.{IsServed, serve_stream-IsServed}
use skybridge.Tests.{ascii}
use skybridge.Tests.Agent.{half}

-- The system's pool is named by its path.
abbrev trust : Trust Bytes
trust = record { parse_pem = λ pem. none; system = ok (codes "/etc/ssl") }

abbrev verified : Policy Bytes
verified = record { mode = codes "verify-full"; server_name = []; roots = some (codes "/etc/ssl") }

half_builds : build_upstream_tls_policy ascii trust half ≡ ok (some verified)
unfolding build_upstream_tls_policy upstream_tls_enabled is_in bytes_equal trim_space to_lower
    roots_of policy_for
half_builds = refl

build_upstream_tls_policy-IsPolicy_example : IsPolicy verified
build_upstream_tls_policy-IsPolicy_example =
    build_upstream_tls_policy-IsPolicy ascii trust half verified half_builds

abbrev handshake : TlsConfig Bytes → Bytes → Option Bytes
handshake cfg bs = some bs

verified-required : required verified ≡ true
unfolding required is_in bytes_equal
verified-required = refl

abbrev split : Bytes → Option Bytes
split addr = none

abbrev dial : Bytes → Option Bytes
dial addr = some (codes "S")

abbrev served : Config
served = record half {
  targets =
      record {
        name = codes "db";
        addr = codes "pg";
        db_type = codes "postgres";
        resource_role_id = [];
        actor_email = [];
      }
      ∷ [];
}

serve_stream-IsServed_example :
    IsServed split verified
      (serve_stream ascii split handshake (some verified) served dial (some (codes "db")))
serve_stream-IsServed_example =
    serve_stream-IsServed ascii split handshake verified verified-required served dial
      (some (codes "db"))
