-- ===== src/Tests/Agent.antt =====
-- The theorems on the agent at concrete inputs.
mod Tls
use skybridge.Prelude.{◌≡◌, refl, false, not, ◌&&◌, ◌||◌, [], bytes_equal}
use skybridge.Prelude.Text.{codes}
use skybridge.Prelude.Int.{pos}
use skybridge.Mask.Remote.{Service}
use skybridge.Gateway.Registry.{admit, ack, is_empty}
use skybridge.Agent.{Config}
use skybridge.Agent.Masking.{maskers_of, masking_mode}
use skybridge.Agent.Session.{registration, is_accepted}
use skybridge.Agent.Session.Registering.{is_accepted-registration}
use skybridge.Tests.{ascii}

-- An agent with one of the two addresses of the remote masker.
abbrev pub half : Config
half = record {
  mode = codes "tunnel";
  db_type = codes "postgres";
  listen_addr = [];
  upstream_addr = [];
  gateway_addr = codes "gw:8010";
  mask_language = codes "en";
  pii_overlay_token = [];
  pii_overlay_poll_seconds = pos 60;
  credential_exchange_token = [];
  client_tls_cert_pem = [];
  client_tls_key_pem = [];
  client_tls_self_signed = false;
  upstream_tls_mode = codes "Verify-Full";
  upstream_tls_ca_pem = [];
  upstream_tls_server_name = [];
  agent_id = codes "a";
  org_id = [];
  token = codes "t";
  targets = [];
  mask_analyze_url = codes "http://127.0.0.1:3000/analyze";
  mask_anonymize_url = [];
  pii_overlay = [];
  pii_overlay_url = [];
  inject_credentials = false;
  credential_exchange_url = [];
}

-- Its label names a masker that it does not run.
half_has_no_masker : (service : Service) → maskers_of ascii service half ≡ []
unfolding maskers_of
half_has_no_masker service = refl

half_is_remote : masking_mode half ≡ codes "remote"
unfolding masking_mode
half_is_remote = refl
