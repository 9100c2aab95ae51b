-- ===== src/Agent/Session/Registering.antt =====
-- internal/agent and internal/gateway: what comes of an agent's registration.
use skybridge.Prelude.{
  ◌≡◌, refl, Bool, true, false, not, ◌&&◌, ◌||◌, Bytes, bytes_equal, bytes_equal_refl, ok, err,
  if◌then◌else◌,
}
use skybridge.Tunnel.Control.{kind_register}
use skybridge.Gateway.Registry.{
  AgentConn, Refusal, admit, ack, is_empty, unauthorized, missing_agent_id,
}
use skybridge.Agent.{Config}
use skybridge.Agent.Session.{registration, is_accepted}

accepted_ok : (ac : AgentConn) → is_accepted (ack (ok ac)) ≡ true
unfolding is_accepted ack bytes_equal
accepted_ok ac = refl

accepted_err : (e : Refusal) → is_accepted (ack (err e)) ≡ false
unfolding is_accepted ack bytes_equal
accepted_err e = refl

by_checks :
    (free shown empty : Bool) (ac : AgentConn)
    → is_accepted (
        ack (
          if not free && not shown
          then err unauthorized
          else if empty
          then err missing_agent_id
          else ok ac))
      ≡ ((free || shown) && not empty)
by_checks true shown true ac = accepted_err missing_agent_id
by_checks true shown false ac = accepted_ok ac
by_checks false true true ac = accepted_err missing_agent_id
by_checks false true false ac = accepted_ok ac
by_checks false false empty ac = accepted_err unauthorized

-- An agent goes on behind the gateway's answer to its registration exactly if the gateway asks for no
-- token or the agent has shown that token, and the agent has an id.
pub is_accepted-registration :
    (auth_token : Bytes) (cfg : Config)
    → is_accepted (ack (admit auth_token (registration cfg)))
      ≡ ((is_empty auth_token || bytes_equal cfg.token auth_token) && not (is_empty cfg.agent_id))
unfolding admit registration
is_accepted-registration auth_token cfg =
    rw (bytes_equal_refl kind_register, admit)
      (by_checks (is_empty auth_token) (bytes_equal cfg.token auth_token) (is_empty cfg.agent_id)
        (record { id = cfg.agent_id; org_id = cfg.org_id; targets = cfg.targets }))
