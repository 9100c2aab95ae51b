-- ===== src/Gateway/Registry/Reach.antt =====
-- internal/gateway/gateway.go: which agent serves a target, after any connections and disconnections.
use skybridge.Prelude.{
  ℕ, ◌≡◌, ◌≢◌, refl, sym, ap, ◌∙◌, arith, Bool, true, false, not, some, List, [], ◌∷◌,
  if◌then◌else◌, Bytes, bytes_equal_iff, ok, err,
}
use skybridge.Prelude.Dict.{get, get-put}
use skybridge.Tunnel.Control.{Control, kind_register}
use skybridge.Gateway.Registry.{
  AgentConn, Registry, Refusal, empty, admit, register, deregister, agent_for,
}
use skybridge.Gateway.Registry.Serving.{
  declares, among, newest, unless_gone, get-put_targets, get-delete_own, get-delete_targets,
  newest_has, unless_gone-eq-some, serving, has_target, has_id, join_serves, leave_serves,
}

module _ (heap : ℕ → AgentConn) (auth_token : Bytes) (hello : ℕ → Control) where
  -- What the gateway goes through: `hello` is the first control message of a connection. The lists
  -- are the connections that have registered, newest first, and those that have ended.
  pub data Reach : Registry → List ℕ → List ℕ → Type 0 where
    start : Reach empty [] []
    join :
        {g : Registry} {joined gone : List ℕ} (c : ℕ)
        → Reach g joined gone
        → admit auth_token (hello c) ≡ ok (heap c)
        → among c gone ≡ false
        → Reach (register heap c g) (c ∷ joined) gone
    leave :
        {g : Registry} {joined gone : List ℕ} (c : ℕ)
        → Reach g joined gone
        → Reach (deregister heap c g) joined (c ∷ gone)

  targets_served :
      {g : Registry} {joined gone : List ℕ}
      → Reach g joined gone
      → (name : Bytes) → agent_for name g ≡ serving (has_target heap name) joined gone
  unfolding empty register deregister serving has_target newest unless_gone get
  targets_served start name = refl
  targets_served (join {g = g} {joined = joined} {gone = gone} c r admitted here) name =
      get-put_targets c (heap c).targets name g.targets
      ∙ join_serves (has_target heap name) c joined gone _ here (targets_served r name)
  targets_served (leave {g = g} {joined = joined} {gone = gone} c r) name =
      get-delete_targets c (heap c).targets name g.targets
      ∙ leave_serves (has_target heap name) c joined gone _ (targets_served r name)

  agents_served :
      {g : Registry} {joined gone : List ℕ}
      → Reach g joined gone
      → (id : Bytes) → get id g.agents ≡ serving (has_id heap id) joined gone
  unfolding empty register deregister serving has_id newest unless_gone get
  agents_served start id = refl
  agents_served (join {g = g} {joined = joined} {gone = gone} c r admitted here) id =
      get-put (heap c).id c id g.agents
      ∙ join_serves (has_id heap id) c joined gone _ here (agents_served r id)
  agents_served (leave {g = g} {joined = joined} {gone = gone} c r) id =
      get-delete_own c (heap c).id id g.agents
      ∙ leave_serves (has_id heap id) c joined gone _ (agents_served r id)

  -- After any registrations and disconnections of agents, a target is served by the connection that
  -- has declared it last, if that one is still there, and else by none; and an agent's id stands for
  -- the connection that has registered with it last, if that one is still there.
  pub agent_for-serving :
      {g : Registry} {joined gone : List ℕ}
      → Reach g joined gone
      → (name id : Bytes)
      → (agent_for name g ≡ serving (has_target heap name) joined gone)
        × (get id g.agents ≡ serving (has_id heap id) joined gone)
  agent_for-serving r name id = (targets_served r name, agents_served r id)

  all_admitted :
      {g : Registry} {joined gone : List ℕ} (p : ℕ → Bool) (c : ℕ)
      → Reach g joined gone
      → newest p joined ≡ some c
      → admit auth_token (hello c) ≡ ok (heap c)
  unfolding newest
  all_admitted p c start h = absurd (cc)
  all_admitted p c (join {joined = joined} d r admitted here) h =
      ground (arith, all_admitted p c r, ap (λ e. admit auth_token (hello e)))
  all_admitted p c (leave d r) h = all_admitted p c r h

three_checks :
    (k t e : Bool) (x y z : Refusal) (v ac : AgentConn)
    → (if not k then err x else if not t then err y else if e then err z else ok v) ≡ ok ac
    → (k ≡ true) × (t ≡ true) × (v ≡ ac)
three_checks false t e x y z v ac h = absurd (cc)
three_checks true false e x y z v ac h = absurd (cc)
three_checks true true true x y z v ac h = absurd (cc)
three_checks true true false x y z v ac h = (refl, refl, cc)

-- What the checks on a control message have made sure of.
admit_ok :
    (auth_token : Bytes) (reg : Control) (ac : AgentConn)
    → auth_token ≢ []
    → admit auth_token reg ≡ ok ac
    → (reg.kind ≡ kind_register) × (reg.token ≡ auth_token) × (reg.targets ≡ ac.targets)
unfolding admit
admit_ok [] reg ac ne h = absurd (ne refl)
admit_ok (b ∷ token) reg ac ne h =
    let (kind, shown, is) = three_checks _ _ _ _ _ _ _ ac h in
    (
      (bytes_equal_iff reg.kind kind_register).0 kind,
      (bytes_equal_iff reg.token (b ∷ token)).0 shown,
      ap (λ v. v.targets) is,
    )

-- With a token configured, the connection that serves a target has registered with exactly this token,
-- has declared the target in its registration, and has not ended.
pub agent_for-admit :
    (heap : ℕ → AgentConn) (auth_token : Bytes) (hello : ℕ → Control) {g : Registry}
    {joined gone : List ℕ} (name : Bytes) (c : ℕ)
    → auth_token ≢ []
    → Reach heap auth_token hello g joined gone
    → agent_for name g ≡ some c
    → ((hello c).token ≡ auth_token)
      × ((declares name (hello c).targets ≡ true) × (among c gone ≡ false))
unfolding serving has_target
agent_for-admit heap auth_token hello {joined = joined} {gone = gone} name c ne r h =
    let (found, here) =
      unless_gone-eq-some gone (newest (has_target heap name) joined) c
        (sym (targets_served heap auth_token hello r name) ∙ h) in
    let (kind, shown, same) =
      admit_ok auth_token (hello c) (heap c) ne
        (all_admitted heap auth_token hello (has_target heap name) c r found) in
    (shown, (ap (declares name) same ∙ newest_has (has_target heap name) joined c found, here))
