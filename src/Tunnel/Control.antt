-- ===== src/Tunnel/Control.antt =====
-- internal/tunnel/control.go: the control message. Its JSON form is encoding/json's, so the codec is
-- a parameter of the session.
use skybridge.Prelude.{Bool, List, Option, Bytes}
use skybridge.Prelude.Text.{codes}

pub record Target : Type 0 where
  pub name : Bytes
  pub addr : Bytes
  pub db_type : Bytes
  pub resource_role_id : Bytes
  pub actor_email : Bytes

pub record Control : Type 0 where
  pub kind : Bytes
  pub agent_id : Bytes
  pub org_id : Bytes
  pub token : Bytes
  pub targets : List Target
  pub is_ok : Bool
  pub error : Bytes

abbrev pub kind_register : Bytes
kind_register = codes "register"

abbrev pub kind_register_ack : Bytes
kind_register_ack = codes "register_ack"

abbrev pub kind_heartbeat : Bytes
kind_heartbeat = codes "heartbeat"

-- `Control.encode` and `decodeControl`
pub record ControlCodec : Type 0 where
  pub encode : Control → Bytes
  pub decode : Bytes → Option Control
