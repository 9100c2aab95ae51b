-- ===== src/Config/Roles.antt =====
-- internal/config/config.go: the configurations of the edge and of the gateway.
use skybridge.Prelude.{
  Bool, true, false, not, ◌&&◌, List, [], ◌∷◌, Bytes, bytes_equal, if◌then◌else◌,
}
use skybridge.Prelude.Text.{codes, Unicode}
use skybridge.Tunnel.Control.{Target}
use skybridge.Agent.{Config}
use skybridge.Config.{
  ClientListener, Host, is_empty, truthy, env, parse_clients, pem_from_env, load_agent,
}

abbrev mode_tunnel : Bytes
mode_tunnel = codes "tunnel"

-- `config.Edge`
pub record EdgeConfig : Type 0 where
  pub gateway_addr : Bytes
  pub tenant_id : Bytes
  pub edge_id : Bytes
  pub token : Bytes
  pub insecure : Bool
  pub ca_bundle : Bytes
  pub tls_dir : Bytes
  pub enroll_target : Bytes
  pub enroll_token : Bytes
  pub trust_domain : Bytes
  pub aws_region : Bytes
  pub aws_assume_role_arn : Bytes
  pub aws_external_id : Bytes
  pub aws_binary : Bytes
  pub wire_proxy : Config

-- `config.Gateway`
pub record GatewayConfig : Type 0 where
  pub agent_listen : Bytes
  pub auth_token : Bytes
  pub clients : List ClientListener
  pub control_plane_url : Bytes
  pub control_plane_token : Bytes
  pub session_path : Bytes

module _ (u : Unicode) (h : Host) where
  unfoldable pub load_edge : EdgeConfig
  unfolding env truthy pem_from_env load_agent
  load_edge = record {
    gateway_addr =
        env u h (codes "SKYBRIDGE_EDGE_GATEWAY") (env u h (codes "SKYBRIDGE_GATEWAY") []);
    tenant_id = env u h (codes "SKYBRIDGE_ORG_ID") [];
    edge_id = env u h (codes "SKYBRIDGE_EDGE_ID") (env u h (codes "SKYBRIDGE_AGENT_ID") []);
    token = env u h (codes "SKYBRIDGE_TOKEN") [];
    insecure = truthy u (env u h (codes "SKYBRIDGE_EDGE_INSECURE") []);
    ca_bundle =
        pem_from_env u h (codes "SKYBRIDGE_CA_BUNDLE_PEM") (codes "SKYBRIDGE_CA_BUNDLE_FILE");
    tls_dir = env u h (codes "SKYBRIDGE_TLS_DIR") [];
    enroll_target = env u h (codes "SKYBRIDGE_ENROLL_GATEWAY") [];
    enroll_token = env u h (codes "SKYBRIDGE_ENROLLMENT_TOKEN") [];
    trust_domain = env u h (codes "SKYBRIDGE_SPIFFE_TRUST_DOMAIN") [];
    aws_region = env u h (codes "SKYBRIDGE_AWS_REGION") [];
    aws_assume_role_arn = env u h (codes "SKYBRIDGE_AWS_ASSUME_ROLE_ARN") [];
    aws_external_id = env u h (codes "SKYBRIDGE_AWS_EXTERNAL_ID") [];
    aws_binary = env u h (codes "SKYBRIDGE_AWS_BINARY") [];
    wire_proxy = load_agent u h;
  }

  unfoldable pub load_gateway : GatewayConfig
  unfolding env parse_clients
  load_gateway = record {
    agent_listen = env u h (codes "SKYBRIDGE_GW_AGENT_LISTEN") (codes ":8010");
    auth_token = env u h (codes "SKYBRIDGE_GW_TOKEN") [];
    clients = parse_clients u h (env u h (codes "SKYBRIDGE_GW_CLIENTS") []);
    control_plane_url = env u h (codes "SKYBRIDGE_GW_CONTROL_PLANE_URL") [];
    control_plane_token = env u h (codes "SKYBRIDGE_GW_CONTROL_PLANE_TOKEN") [];
    session_path =
        env u h (codes "SKYBRIDGE_GW_SESSION_PATH")
          (codes "/api/v1/data-studio/studio/native-sessions");
  }

has_targets : List Target → Bool
has_targets [] = false
has_targets (t ∷ ts) = true

unfoldable pub wire_proxy_enabled : EdgeConfig → Bool
unfolding bytes_equal has_targets
wire_proxy_enabled e =
    if bytes_equal e.wire_proxy.mode mode_tunnel
    then not (is_empty e.wire_proxy.gateway_addr) && has_targets e.wire_proxy.targets
    else not (is_empty e.wire_proxy.upstream_addr)
