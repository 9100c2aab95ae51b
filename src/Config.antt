-- ===== src/Config.antt =====
-- internal/config/config.go: the configurations that the environment describes. The environment, the
-- files, strconv.Atoi and encoding/json are parameters.
pub mod Roles
use skybridge.Prelude.{
  ℕ, Bool, true, false, not, ◌&&◌, ◌||◌, Option, none, some, List, [], ◌∷◌, map, Bytes, bytes_equal,
  if◌then◌else◌,
}
use skybridge.Prelude.Int.{ℤ, pos}
use skybridge.Prelude.Text.{codes, Unicode, trim_space, to_lower}
use skybridge.Tunnel.Control.{Target}
use skybridge.Mask.Overlay.{Rules}
use skybridge.Edge.Policy.{is_in}
use skybridge.Agent.{Config}

-- `ClientListener`
pub record ClientListener : Type 0 where
  pub addr : Bytes
  pub target : Bytes

-- os.Getenv, empty where a variable is unset; os.ReadFile; strconv.Atoi; json.Unmarshal into each type.
pub record Host : Type 0 where
  pub getenv : Bytes → Bytes
  pub read_file : Bytes → Option Bytes
  pub atoi : Bytes → Option ℤ
  pub targets : Bytes → Option (List Target)
  pub rules : Bytes → Option Rules
  pub clients : Bytes → Option (List ClientListener)

abbrev mode_listener : Bytes
mode_listener = codes "listener"

abbrev pub is_empty : Bytes → Bool
is_empty [] = true
is_empty (b ∷ bs) = false

or_nil : {A : Type 0} → Option (List A) → List A
or_nil none = []
or_nil (some xs) = xs

unfoldable pub truthy : Unicode → Bytes → Bool
unfolding is_in
truthy u v =
    is_in (to_lower u (trim_space u v)) (codes "1" ∷ codes "true" ∷ codes "yes" ∷ codes "on" ∷ [])

unfoldable pub default_listen : Bytes → Bytes
unfolding is_in
default_listen db_type =
    if bytes_equal db_type (codes "mysql")
    then codes ":13306"
    else if is_in db_type (codes "mongodb" ∷ codes "mongo" ∷ [])
    then codes ":27018"
    else codes ":15432"

unfoldable pub lower_db_type : Unicode → Target → Target
lower_db_type u t = record {
  name = t.name;
  addr = t.addr;
  db_type = to_lower u t.db_type;
  resource_role_id = t.resource_role_id;
  actor_email = t.actor_email;
}

unfoldable pub int_or : Option ℤ → ℤ → ℤ
int_or none def = def
int_or (some n) def = n

module _ (u : Unicode) (h : Host) where
  unfoldable pub env : Bytes → Bytes → Bytes
  env key def = if is_empty (trim_space u (h.getenv key)) then def else trim_space u (h.getenv key)

  unfoldable pub atoi_default : Bytes → ℤ → ℤ
  unfolding int_or
  atoi_default raw def =
      if is_empty (trim_space u raw) then def else int_or (h.atoi (trim_space u raw)) def

  unfoldable pub parse_targets : Bytes → List Target
  unfolding lower_db_type or_nil
  parse_targets raw =
      if is_empty (trim_space u raw)
      then []
      else map (lower_db_type u) (or_nil (h.targets (trim_space u raw)))

  unfoldable pub parse_overlay : Bytes → Rules
  unfolding or_nil
  parse_overlay raw =
      if is_empty (trim_space u raw) then [] else or_nil (h.rules (trim_space u raw))

  unfoldable pub parse_clients : Bytes → List ClientListener
  unfolding or_nil
  parse_clients raw =
      if is_empty (trim_space u raw) then [] else or_nil (h.clients (trim_space u raw))

  unfoldable pub pem_from_file : Bytes → Bytes
  pem_from_file name = elim (h.read_file name) [ none ↦ [] | some b ↦ b ]

  -- The empty text for nil.
  unfoldable pub pem_from_env : Bytes → Bytes → Bytes
  unfolding pem_from_file
  pem_from_env inline_key file_key =
      if not (is_empty (trim_space u (h.getenv inline_key)))
      then trim_space u (h.getenv inline_key)
      else if not (is_empty (trim_space u (h.getenv file_key)))
      then pem_from_file (trim_space u (h.getenv file_key))
      else []

  unfoldable pub load_agent : Config
  unfolding env default_listen parse_targets parse_overlay atoi_default truthy pem_from_env
  load_agent =
      let db_type = to_lower u (env (codes "SKYBRIDGE_DB_TYPE") (codes "postgres")) in
      let token = env (codes "SKYBRIDGE_TOKEN") [] in
      record {
        mode = to_lower u (env (codes "SKYBRIDGE_MODE") mode_listener);
        db_type = db_type;
        listen_addr = env (codes "SKYBRIDGE_LISTEN") (default_listen db_type);
        upstream_addr = env (codes "SKYBRIDGE_UPSTREAM") [];
        gateway_addr = env (codes "SKYBRIDGE_GATEWAY") [];
        agent_id = env (codes "SKYBRIDGE_AGENT_ID") [];
        org_id = env (codes "SKYBRIDGE_ORG_ID") [];
        token = token;
        targets = parse_targets (env (codes "SKYBRIDGE_TARGETS") []);
        mask_analyze_url = env (codes "SKYBRIDGE_MASK_ANALYZE_URL") [];
        mask_anonymize_url = env (codes "SKYBRIDGE_MASK_ANONYMIZE_URL") [];
        mask_language = env (codes "SKYBRIDGE_MASK_LANGUAGE") (codes "en");
        pii_overlay = parse_overlay (env (codes "SKYBRIDGE_PII_OVERLAY") []);
        pii_overlay_url = env (codes "SKYBRIDGE_PII_OVERLAY_URL") [];
        pii_overlay_token = env (codes "SKYBRIDGE_PII_OVERLAY_TOKEN") token;
        pii_overlay_poll_seconds =
            atoi_default (env (codes "SKYBRIDGE_PII_OVERLAY_POLL_SECONDS") []) (pos 60);
        inject_credentials = truthy u (env (codes "SKYBRIDGE_INJECT_CREDENTIALS") []);
        credential_exchange_url = env (codes "SKYBRIDGE_CREDENTIAL_EXCHANGE_URL") [];
        credential_exchange_token = env (codes "SKYBRIDGE_CREDENTIAL_EXCHANGE_TOKEN") token;
        client_tls_cert_pem =
            pem_from_env (codes "SKYBRIDGE_CLIENT_TLS_CERT_PEM")
              (codes "SKYBRIDGE_CLIENT_TLS_CERT_FILE");
        client_tls_key_pem =
            pem_from_env (codes "SKYBRIDGE_CLIENT_TLS_KEY_PEM")
              (codes "SKYBRIDGE_CLIENT_TLS_KEY_FILE");
        client_tls_self_signed = truthy u (env (codes "SKYBRIDGE_CLIENT_TLS_SELF_SIGNED") []);
        upstream_tls_mode = to_lower u (env (codes "SKYBRIDGE_UPSTREAM_TLS") []);
        upstream_tls_ca_pem =
            pem_from_env (codes "SKYBRIDGE_UPSTREAM_TLS_CA_PEM")
              (codes "SKYBRIDGE_UPSTREAM_TLS_CA_FILE");
        upstream_tls_server_name = env (codes "SKYBRIDGE_UPSTREAM_TLS_SERVER_NAME") [];
      }

unfoldable pub client_tls_configured : Config → Bool
client_tls_configured a =
    not (is_empty a.client_tls_cert_pem) && not (is_empty a.client_tls_key_pem)
    || a.client_tls_self_signed

abbrev pub disabled_modes : List Bytes
disabled_modes = [] ∷ codes "disable" ∷ codes "disabled" ∷ codes "off" ∷ codes "false" ∷ []

unfoldable pub upstream_tls_enabled : Unicode → Config → Bool
unfolding is_in
upstream_tls_enabled u a =
    not (is_in (to_lower u (trim_space u a.upstream_tls_mode)) disabled_modes)
