-- ===== src/Tests/Gateway/Registry.antt =====
-- The theorems on the registry of agents at concrete inputs: two agents declare one target, and the
-- one that came last is asked for it.
use skybridge.Prelude.{◌≡◌, ◌≢◌, refl, true, false, some, [], ◌∷◌, Bytes, ok, bytes_equal}
use skybridge.Prelude.Dict.{get, put}
use skybridge.Prelude.Text.{codes}
use skybridge.Tunnel.Control.{Target, Control, kind_register}
use skybridge.Gateway.Registry.{AgentConn, Registry, empty, admit, put_targets, register, agent_for}
use skybridge.Gateway.Registry.Serving.{declares, among, serving, has_target, has_id}
use skybridge.Gateway.Registry.Reach.{Reach, start, join, agent_for-serving, agent_for-admit}

abbrev orders : Target
orders = record {
  name = codes "orders";
  addr = codes "db:5432";
  db_type = codes "postgres";
  resource_role_id = [];
  actor_email = [];
}

abbrev secret : Bytes
secret = codes "secret"

abbrev agent : AgentConn
agent = record { id = codes "a"; org_id = []; targets = orders ∷ [] }

abbrev registration : Control
registration = record {
  kind = kind_register;
  agent_id = codes "a";
  org_id = [];
  token = secret;
  targets = orders ∷ [];
  is_ok = false;
  error = [];
}

is_admitted : admit secret registration ≡ ok agent
unfolding admit bytes_equal
is_admitted = refl

not_empty : secret ≢ []
not_empty h = absurd (cc)

abbrev two : Registry
two = register (λ c. agent) 2 (register (λ c. agent) 1 empty)

two-Reach : Reach (λ c. agent) secret (λ c. registration) two (2 ∷ 1 ∷ []) []
unfolding among
two-Reach = join 2 (join 1 start is_admitted refl) is_admitted refl

agent_for-serving_example :
    (agent_for (codes "orders") two
      ≡ serving (has_target (λ c. agent) (codes "orders")) (2 ∷ 1 ∷ []) [])
    × (get (codes "a") two.agents ≡ serving (has_id (λ c. agent) (codes "a")) (2 ∷ 1 ∷ []) [])
agent_for-serving_example =
    agent_for-serving (λ c. agent) secret (λ c. registration) two-Reach (codes "orders") (codes "a")

second_serves : agent_for (codes "orders") two ≡ some 2
unfolding register put_targets get put empty bytes_equal
second_serves = refl

agent_for-admit_example :
    (secret ≡ secret) × ((declares (codes "orders") (orders ∷ []) ≡ true) × (among 2 [] ≡ false))
agent_for-admit_example =
    agent_for-admit (λ c. agent) secret (λ c. registration) (codes "orders") 2 not_empty two-Reach
      second_serves
