-- ===== src/Agent/Session.antt =====
-- internal/agent/agent.go and credsource.go: the agent's registration, and what it does with a stream.
pub mod Registering
use skybridge.Prelude.{
  ℕ, Bool, true, false, not, ◌&&◌, ◌||◌, Option, none, some, List, [], ◌∷◌, ◌++◌, if◌then◌else◌,
  Bytes, bytes_equal, take, ltb, leb, Result, ok, err,
}
use skybridge.Prelude.Dict.{Dict, get_text}
use skybridge.Prelude.Text.{codes, Unicode, trim_space}
use skybridge.Tunnel.Control.{Target, Control, kind_register, kind_register_ack}
use skybridge.Wire.Credential.{UpstreamCredential}
use skybridge.Agent.{Config}

-- What `ServeTunnelConn` sends first.
unfoldable pub registration : Config → Control
registration cfg = record {
  kind = kind_register;
  agent_id = cfg.agent_id;
  org_id = cfg.org_id;
  token = cfg.token;
  targets = cfg.targets;
  is_ok = false;
  error = [];
}

-- Whether it goes on behind the gateway's answer.
unfoldable pub is_accepted : Control → Bool
is_accepted ack = bytes_equal ack.kind kind_register_ack && ack.is_ok

-- `Agent.TargetByName`
unfoldable pub target_by_name : Bytes → List Target → Option Target
target_by_name name [] = none
target_by_name name (t ∷ ts) = if bytes_equal t.name name then some t else target_by_name name ts

pub data StreamError : Type 0 where
  bad_meta : StreamError
  unknown_target : Bytes → StreamError

-- The target that `serveStream` connects a stream to, by the name in its decoded metadata.
unfoldable pub target_of_stream : Config → Option Bytes → Result StreamError Target
unfolding target_by_name
target_of_stream cfg none = err bad_meta
target_of_stream cfg (some name) = elim (target_by_name name cfg.targets) [
  | none ↦ err (unknown_target name)
  | some t ↦ ok t
]

pub data ProxyPath : Type 0 where
  verbatim injected : ProxyPath

-- `proxyConn`
unfoldable pub proxy_path : Bool → Bool → ProxyPath
proxy_path has_resolver engine_injects =
    if has_resolver && engine_injects then injected else verbatim

is_blank : Unicode → Bytes → Bool
is_blank u s = elim (trim_space u s) [ [] ↦ true | b ∷ bs ↦ false ]

-- `NewHTTPCredentialResolver(cfg) != nil`
unfoldable pub has_resolver : Unicode → Config → Bool
unfolding is_blank
has_resolver u cfg = cfg.inject_credentials && not (is_blank u cfg.credential_exchange_url)

pub data ResolveError : Type 0 where
  no_session_token bad_response no_username : ResolveError
  exchange_failed : ResolveError
  exchange_rejected : ℕ → Bytes → ResolveError

-- The control plane, over HTTP: its answer to a token with the user and the database that the client asked
-- for, as status and body, and what encoding/json makes of a body: a credential, or the field `detail`,
-- which is empty where there is none.
pub record ControlPlane : Type 0 where
  pub exchange : Bytes → Bytes → Bytes → Option (ℕ × Bytes)
  pub credential : Bytes → Option UpstreamCredential
  pub detail : Bytes → Bytes

-- `io.LimitReader(resp.Body, 8<<10)`
abbrev pub body_cap : ℕ
body_cap = 8192

reason_of : Unicode → ControlPlane → Bytes → Bytes
reason_of u plane raw = elim (trim_space u (plane.detail raw)) [
  | [] ↦ trim_space u raw
  | b ∷ reason ↦ b ∷ reason
]

unfoldable pub named_credential :
    Unicode → Option UpstreamCredential → Result ResolveError UpstreamCredential
unfolding is_blank
named_credential u none = err bad_response
named_credential u (some creds) = if is_blank u creds.username then err no_username else ok creds

unfoldable pub read_answer :
    Unicode → ControlPlane → Option (ℕ × Bytes) → Result ResolveError UpstreamCredential
unfolding reason_of named_credential
read_answer u plane none = err exchange_failed
read_answer u plane (some (status, body)) =
    if ltb status 200 || leb 300 status
    then err (exchange_rejected status (reason_of u plane (take body_cap body)))
    else named_credential u (plane.credential (take body_cap body))

-- The resolver of `NewHTTPCredentialResolver`.
unfoldable pub resolve :
    Unicode → ControlPlane → Dict Bytes → Bytes → Result ResolveError UpstreamCredential
unfolding is_blank read_answer
resolve u plane startup secret =
    if is_blank u secret
    then err no_session_token
    else read_answer u plane (
        plane.exchange secret (get_text (codes "user") startup)
          (get_text (codes "database") startup))
