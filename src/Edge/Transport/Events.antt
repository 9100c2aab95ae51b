-- ===== src/Edge/Transport/Events.antt =====
-- internal/edge/transport/transport.go: the events of a run, sent and pending.
pub mod Runs
use skybridge.Prelude.{
  ℕ, ◌≡◌, refl, sym, ap, ◌∙◌, arith, Bool, true, false, Option, none, some, List, [], ◌∷◌, ◌++◌,
  map, append-nil, append_assoc, if◌then◌else◌, Bytes, bytes_equal, bytes_equal_iff, Bool-cases,
  Option-cases, inl, inr,
}
use skybridge.Prelude.Dict.{Dict, get, put, delete, get-put, get-delete}
use skybridge.Edge.Work.{AgentEvent}
use skybridge.Edge.Transport.{
  GatewayMessage, registered, work_assignment, cancel_work, ping, unknown, ConnectorMessage,
  register, heartbeat, work_event, Run, State, start_stream, start_run, cancel_run, handle_message,
  advance, step_run, Step, receive, proceed, step, steps,
}

pub event_of : Bytes → ConnectorMessage → List AgentEvent
event_of k (work_event run_id e) = if bytes_equal run_id k then e ∷ [] else []
event_of k _ = []

-- The events that were sent for a run, in order.
pub events_of : Bytes → List ConnectorMessage → List AgentEvent
unfolding event_of
events_of k [] = []
events_of k (m ∷ ms) = event_of k m ++ events_of k ms

pub pending_of : Option Run → List AgentEvent
pending_of none = []
pending_of (some r) = r.pending

-- The goal of a message that starts a run under an id.
pub goal_of : Bytes → GatewayMessage → Option Run → List Bytes
goal_of k (work_assignment (b ∷ run_id) goal) none =
    if bytes_equal (b ∷ run_id) k then goal ∷ [] else []
goal_of k _ _ = []

-- The goals that a step starts under an id, with the clock at their assignment.
pub started : Bytes → Step → State → List (ℕ × Bytes)
unfolding goal_of
started k (receive now m) s = map (λ goal. (now, goal)) (goal_of k m (get k s.runs))
started k (proceed run_id) s = []

-- The goals of the runs that were started under an id, in order.
pub goals_of : (ℕ → Bytes → List AgentEvent) → Bytes → List Step → State → List (ℕ × Bytes)
unfolding started
goals_of work k [] s = []
goals_of work k (x ∷ xs) s = started k x s ++ goals_of work k xs (step work x s)

-- The events of some goals, each with the clock at its assignment.
pub runs_events : (ℕ → Bytes → List AgentEvent) → List (ℕ × Bytes) → List AgentEvent
runs_events work [] = []
runs_events work ((now, goal) ∷ gs) = work now goal ++ runs_events work gs

pub all_events : (Bytes → List AgentEvent) → List Bytes → List AgentEvent
all_events work [] = []
all_events work (g ∷ gs) = work g ++ all_events work gs

pub events_of-append :
    (k : Bytes) (xs ys : List ConnectorMessage)
    → events_of k (xs ++ ys) ≡ events_of k xs ++ events_of k ys
unfolding events_of
events_of-append k [] ys = refl
events_of-append k (x ∷ xs) ys =
    ap (event_of k x ++◌) (events_of-append k xs ys)
    ∙ sym (append_assoc (event_of k x) (events_of k xs) (events_of k ys))

pub runs_events-append :
    (work : ℕ → Bytes → List AgentEvent) (gs hs : List (ℕ × Bytes))
    → runs_events work (gs ++ hs) ≡ runs_events work gs ++ runs_events work hs
unfolding runs_events
runs_events-append work [] hs = refl
runs_events-append work ((now, goal) ∷ gs) hs =
    ap (work now goal ++◌) (runs_events-append work gs hs)
    ∙ sym (append_assoc (work now goal) (runs_events work gs) (runs_events work hs))

pub runs_events-map :
    (work : ℕ → Bytes → List AgentEvent) (now : ℕ) (gs : List Bytes)
    → all_events (work now) gs ≡ runs_events work (map (λ goal. (now, goal)) gs)
unfolding runs_events all_events
runs_events-map work now [] = refl
runs_events-map work now (g ∷ gs) = ap (work now g ++◌) (runs_events-map work now gs)

-- What was sent for a run, and what is still to be sent.
pub view : Bytes → State → List AgentEvent
view k s = events_of k s.sent ++ pending_of (get k s.runs)

-- A table that differs at one id only by what is not pending, and otherwise by what is.
pub pending-put :
    (k run_id : Bytes) (r : Run) (runs : Dict Run)
    → pending_of (get k (put run_id r runs))
      ≡ (if bytes_equal run_id k then r.pending else pending_of (get k runs))
unfolding pending_of
pending-put k run_id r runs = elim (Bool-cases (bytes_equal run_id k)) [
  | inl e ↦ rw (get-put run_id r k runs, e) refl
  | inr e ↦ rw (get-put run_id r k runs, e) refl
]

pub pending-delete :
    (k run_id : Bytes) (runs : Dict Run)
    → pending_of (get k (delete run_id runs))
      ≡ (if bytes_equal run_id k then [] else pending_of (get k runs))
unfolding pending_of
pending-delete k run_id runs = elim (Bool-cases (bytes_equal run_id k)) [
  | inl e ↦ rw (get-delete run_id k runs, e) refl
  | inr e ↦ rw (get-delete run_id k runs, e) refl
]

module _ (work : Bytes → List AgentEvent) (k : Bytes) where
  goal_of_other :
      (b : ℕ) (run_id goal : Bytes) (o : Option Run)
      → bytes_equal (b ∷ run_id) k ≡ false
      → goal_of k (work_assignment (b ∷ run_id) goal) o ≡ []
  unfolding goal_of
  goal_of_other b run_id goal none h = rw h refl
  goal_of_other b run_id goal (some r) h = refl

  -- Where a run of the id goes on, no run is started.
  unstarted :
      (b : ℕ) (run_id goal : Bytes) (runs : Dict Run) (r : Run)
      → get (b ∷ run_id) runs ≡ some r
      → goal_of k (work_assignment (b ∷ run_id) goal) (get k runs) ≡ []
  unfolding goal_of
  unstarted b run_id goal runs r e = elim (Bool-cases (bytes_equal (b ∷ run_id) k)) [
    | inl same ↦ rw (← (bytes_equal_iff (b ∷ run_id) k).0 same, e) refl
    | inr other ↦ goal_of_other b run_id goal (get k runs) other
  ]

  start_new :
      (b : ℕ) (run_id goal : Bytes) (runs : Dict Run)
      → get (b ∷ run_id) runs ≡ none
      → pending_of
          (get k (put (b ∷ run_id) (record { is_cancelled = false; pending = work goal }) runs))
        ≡ pending_of (get k runs)
          ++ all_events work (goal_of k (work_assignment (b ∷ run_id) goal) (get k runs))
  unfolding goal_of all_events pending_of
  start_new b run_id goal runs e =
      pending-put k (b ∷ run_id) (record { is_cancelled = false; pending = work goal }) runs
      ∙ (elim (Bool-cases (bytes_equal (b ∷ run_id) k)) [
        | inl same ↦
            let here : get k runs ≡ none = rw (← (bytes_equal_iff (b ∷ run_id) k).0 same) e in
            rw (same, here, same) (sym (append-nil (work goal)))
        | inr other ↦
            rw (other, goal_of_other b run_id goal (get k runs) other)
              (sym (append-nil (pending_of (get k runs))))
      ])

  -- The events of the goals that a message starts are pending behind it, and nothing else is changed.
  pub start_run-pending :
      (run_id goal : Bytes) (runs : Dict Run)
      → pending_of (get k (start_run work run_id goal runs))
        ≡ pending_of (get k runs)
          ++ all_events work (goal_of k (work_assignment run_id goal) (get k runs))
  unfolding start_run goal_of all_events pending_of
  start_run-pending [] goal runs = elim (Option-cases (get k runs)) [
    | inl e ↦ rw e refl
    | inr (r, e) ↦ rw e (sym (append-nil _))
  ]
  start_run-pending (b ∷ run_id) goal runs = elim (Option-cases (get (b ∷ run_id) runs)) [
    | inr (r, e) ↦
        rw (e, start_run, unstarted b run_id goal runs r e)
          (sym (append-nil (pending_of (get k runs))))
    | inl e ↦ rw (e, start_run) (start_new b run_id goal runs e)
  ]
