-- ===== src/Agent.antt =====
-- internal/agent and the agent's part of internal/config.
pub mod Masking
pub mod Session
pub mod UpstreamTls
pub mod OverlaySync
pub mod Serving
use skybridge.Prelude.{Bool, List, Bytes}
use skybridge.Prelude.Int.{ℤ}
use skybridge.Mask.Overlay.{Rules}
use skybridge.Tunnel.Control.{Target}

-- `config.Agent`
pub record Config : Type 0 where
  pub mode : Bytes
  pub db_type : Bytes
  pub listen_addr : Bytes
  pub upstream_addr : Bytes
  pub gateway_addr : Bytes
  pub agent_id : Bytes
  pub org_id : Bytes
  pub token : Bytes
  pub targets : List Target
  pub mask_analyze_url : Bytes
  pub mask_anonymize_url : Bytes
  pub mask_language : Bytes
  pub pii_overlay : Rules
  pub pii_overlay_url : Bytes
  pub pii_overlay_token : Bytes
  pub pii_overlay_poll_seconds : ℤ
  pub inject_credentials : Bool
  pub credential_exchange_url : Bytes
  pub credential_exchange_token : Bytes
  pub client_tls_cert_pem : Bytes
  pub client_tls_key_pem : Bytes
  pub client_tls_self_signed : Bool
  pub upstream_tls_mode : Bytes
  pub upstream_tls_ca_pem : Bytes
  pub upstream_tls_server_name : Bytes
