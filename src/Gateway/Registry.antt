-- ===== src/Gateway/Registry.antt =====
-- internal/gateway/gateway.go: the registry of the connected agents. A registered connection is a
-- pointer in the source, here its number; what it points to does not change, and is given by `heap`.
pub mod Serving
pub mod Reach
use skybridge.Prelude.{
  ℕ, Bool, true, false, not, ◌&&◌, Option, none, some, List, [], ◌∷◌, ◌++◌, ◌==◌, if◌then◌else◌,
  map, Bytes, bytes_equal, Result, ok, err,
}
use skybridge.Prelude.Dict.{Dict, get, put, delete}
use skybridge.Prelude.Text.{codes}
use skybridge.Tunnel.Control.{Target, Control, kind_register, kind_register_ack}

pub record AgentConn : Type 0 where
  pub id : Bytes
  pub org_id : Bytes
  pub targets : List Target

-- `agentConn.target`
unfoldable pub target : Bytes → List Target → Option Target
target name [] = none
target name (t ∷ ts) = if bytes_equal t.name name then some t else target name ts

-- `Gateway`, as far as it changes.
pub record Registry : Type 0 where
  pub agents : Dict ℕ
  pub targets : Dict ℕ

unfoldable pub empty : Registry
empty = record { agents = []; targets = [] }

-- Why `ServeAgent` turns a connection down.
pub data Refusal : Type 0 where
  expected_register unauthorized missing_agent_id : Refusal

unfoldable pub refusal_text : Refusal → Bytes
refusal_text expected_register = codes "expected register"
refusal_text unauthorized = codes "unauthorized"
refusal_text missing_agent_id = codes "missing agent_id"

unfoldable pub is_empty : Bytes → Bool
is_empty [] = true
is_empty (b ∷ bs) = false

-- The checks on the first control message of a connection, by the token that agents must show.
unfoldable pub admit : Bytes → Control → Result Refusal AgentConn
unfolding is_empty
admit auth_token reg =
    if not (bytes_equal reg.kind kind_register)
    then err expected_register
    else if not (is_empty auth_token) && not (bytes_equal reg.token auth_token)
    then err unauthorized
    else if is_empty reg.agent_id
    then err missing_agent_id
    else ok (record { id = reg.agent_id; org_id = reg.org_id; targets = reg.targets })

register_ack : Bool → Bytes → Control
register_ack is_ok error = record {
  kind = kind_register_ack;
  agent_id = [];
  org_id = [];
  token = [];
  targets = [];
  is_ok = is_ok;
  error = error;
}

-- The answer to that message.
unfoldable pub ack : Result Refusal AgentConn → Control
unfolding register_ack refusal_text
ack (ok ac) = register_ack true []
ack (err e) = register_ack false (refusal_text e)

unfoldable pub put_targets : ℕ → List Target → Dict ℕ → Dict ℕ
put_targets c [] m = m
put_targets c (t ∷ ts) m = put_targets c ts (put t.name c m)

-- `m[k] == ac`
unfoldable pub points_to : Option ℕ → ℕ → Bool
points_to none c = false
points_to (some d) c = d == c

unfoldable pub delete_own : ℕ → Bytes → Dict ℕ → Dict ℕ
delete_own c k m = if points_to (get k m) c then delete k m else m

unfoldable pub delete_targets : ℕ → List Target → Dict ℕ → Dict ℕ
delete_targets c [] m = m
delete_targets c (t ∷ ts) m = delete_targets c ts (delete_own c t.name m)

module _ (heap : ℕ → AgentConn) where
  unfoldable pub register : ℕ → Registry → Registry
  unfolding put_targets
  register c g = record {
    agents = put (heap c).id c g.agents;
    targets = put_targets c (heap c).targets g.targets;
  }

  unfoldable pub deregister : ℕ → Registry → Registry
  unfolding delete_targets
  deregister c g = record {
    agents = delete_own c (heap c).id g.agents;
    targets = delete_targets c (heap c).targets g.targets;
  }

-- `Targets`, in the order of the map here.
unfoldable pub target_names : Registry → List Bytes
target_names g = map (λ e. e.0) g.targets

-- `Open` up to the stream that it opens over the agent's session: the agent, or ErrNoAgent.
abbrev pub agent_for : Bytes → Registry → Option ℕ
agent_for name g = get name g.targets

-- `SessionRecord`, without the client's address and the time.
pub record SessionRecord : Type 0 where
  pub agent_id : Bytes
  pub org_id : Bytes
  pub target_name : Bytes
  pub db_type : Bytes
  pub resource_role_id : Bytes
  pub actor_email : Bytes

unfoldable pub binding : Option Target → Target
binding none = record {
  name = [];
  addr = [];
  db_type = [];
  resource_role_id = [];
  actor_email = [];
}
binding (some t) = t

-- What `ServeClient` records when a session starts.
unfoldable pub session_record : AgentConn → Bytes → SessionRecord
unfolding target binding
session_record ac name =
    let b : Target = binding (target name ac.targets) in
    record {
      agent_id = ac.id;
      org_id = ac.org_id;
      target_name = name;
      db_type = b.db_type;
      resource_role_id = b.resource_role_id;
      actor_email = b.actor_email;
    }
