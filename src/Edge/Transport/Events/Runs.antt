-- ===== src/Edge/Transport/Events/Runs.antt =====
-- internal/edge/transport/transport.go: what is sent for a run, whatever the order of the steps.
use skybridge.Prelude.{
  ℕ, ◌≡◌, refl, sym, ap, ◌∙◌, Bool, true, List, [], ◌∷◌, ◌++◌, append-nil, append_assoc,
  if◌then◌else◌, Bytes, bytes_equal, bytes_equal_iff, Bool-cases, Option-cases, inl, inr,
}
use skybridge.Prelude.Dict.{Dict, get, put}
use skybridge.Edge.Work.{AgentEvent}
use skybridge.Edge.Transport.Events.{
  event_of, events_of, pending_of, goal_of, started, goals_of, all_events, runs_events,
  runs_events-map, events_of-append, runs_events-append, view, pending-put, pending-delete,
  start_run-pending,
}
use skybridge.Edge.Transport.{
  registered, work_assignment, cancel_work, ping, unknown, ConnectorMessage, heartbeat, work_event,
  Run, State, start_stream, cancel_run, handle_message, advance, step_run, Step, receive, proceed,
  step, steps,
}

module _ (work : ℕ → Bytes → List AgentEvent) (k : Bytes) where
  cancel_run-pending :
      (run_id : Bytes) (runs : Dict Run)
      → pending_of (get k (cancel_run run_id runs)) ≡ pending_of (get k runs)
  unfolding cancel_run pending_of
  cancel_run-pending run_id runs = elim (Option-cases (get run_id runs)) [
    | inl e ↦ rw (e, cancel_run) refl
    | inr (r, e) ↦
        rw (e, cancel_run)
          (pending-put k run_id (record { is_cancelled = true; pending = r.pending }) runs
            ∙ (elim (Bool-cases (bytes_equal run_id k)) [
              | inl same ↦ rw (same, ← (bytes_equal_iff run_id k).0 same, e) refl
              | inr other ↦ rw other refl
            ]))
  ]

  sent_event :
      (run_id : Bytes) (e : AgentEvent) (sent : List ConnectorMessage)
      → events_of k (sent ++ (work_event run_id e ∷ []))
        ≡ events_of k sent ++ (if bytes_equal run_id k then e ∷ [] else [])
  unfolding events_of event_of
  sent_event run_id e sent =
      events_of-append k sent (work_event run_id e ∷ [])
      ∙ ap (events_of k sent ++◌) (append-nil (if bytes_equal run_id k then e ∷ [] else []))

  put_next :
      (run_id : Bytes) (c : Bool) (es : List AgentEvent) (runs : Dict Run)
      → pending_of (get k (put run_id (record { is_cancelled = c; pending = es }) runs))
        ≡ (if bytes_equal run_id k then es else pending_of (get k runs))
  put_next run_id c es runs = pending-put k run_id (record { is_cancelled = c; pending = es }) runs

  -- A goroutine moves an event from what is pending to what was sent, or drops an entry without any.
  advance-view :
      (run_id : Bytes) (c : Bool) (es : List AgentEvent) (s : State)
      → (bytes_equal run_id k ≡ true → pending_of (get k s.runs) ≡ es)
      → view k (advance run_id c es s) ≡ view k s
  unfolding view advance
  advance-view run_id c [] s held = ap (events_of k s.sent ++◌) (
      pending-delete k run_id s.runs ∙ (elim (Bool-cases (bytes_equal run_id k)) [
        | inl same ↦ rw same (sym (held same))
        | inr other ↦ rw other refl
      ]))
  advance-view run_id c (e ∷ es) s held = elim (Bool-cases (bytes_equal run_id k)) [
    | inl same ↦
        rw (sent_event run_id e s.sent, put_next run_id c es s.runs, same, held same)
          (append_assoc (events_of k s.sent) (e ∷ []) es)
    | inr other ↦
        rw
          (
            sent_event run_id e s.sent,
            put_next run_id c es s.runs,
            other,
            append-nil (events_of k s.sent),
          )
          refl
  ]

  step_run-view : (run_id : Bytes) (s : State) → view k (step_run run_id s) ≡ view k s
  unfolding step_run pending_of
  step_run-view run_id s = elim (Option-cases (get run_id s.runs)) [
    | inl e ↦ rw (e, step_run) refl
    | inr (r, e) ↦
        rw (e, step_run)
          (advance-view run_id r.is_cancelled r.pending s
            (λ same. rw (← (bytes_equal_iff run_id k).0 same, e) refl))
  ]

  -- A step adds the events of the goal that it starts to those that are sent or pending.
  step-view :
      (x : Step) (s : State) → view k (step work x s) ≡ view k s ++ runs_events work (started k x s)
  unfolding step started handle_message view goal_of all_events runs_events events_of event_of
  step-view (proceed run_id) s = step_run-view run_id s ∙ sym (append-nil (view k s))
  step-view (receive now (work_assignment run_id goal)) s =
      rw
        (
          start_run-pending (work now) k run_id goal s.runs,
          runs_events-map work now (goal_of k (work_assignment run_id goal) (get k s.runs)),
        )
        (sym (append_assoc (events_of k s.sent) (pending_of (get k s.runs)) _))
  step-view (receive now (cancel_work run_id)) s =
      ap (events_of k s.sent ++◌) (cancel_run-pending run_id s.runs) ∙ sym (append-nil (view k s))
  step-view (receive now ping) s =
      rw (events_of-append k s.sent (heartbeat now ∷ []), append-nil (events_of k s.sent))
        (sym (append-nil (view k s)))
  step-view (receive now registered) s = sym (append-nil (view k s))
  step-view (receive now unknown) s = sym (append-nil (view k s))

  steps-view :
      (xs : List Step) (s : State)
      → view k (steps work xs s) ≡ view k s ++ runs_events work (goals_of work k xs s)
  unfolding steps goals_of runs_events
  steps-view [] s = sym (append-nil (view k s))
  steps-view (x ∷ xs) s =
      steps-view xs (step work x s)
      ∙ ap (◌++ runs_events work (goals_of work k xs (step work x s))) (step-view x s)
      ∙ append_assoc (view k s) (runs_events work (started k x s))
          (runs_events work (goals_of work k xs (step work x s)))
      ∙ ap (view k s ++◌)
          (sym (runs_events-append work (started k x s) (goals_of work k xs (step work x s))))

-- In whatever order the messages of a stream and the goroutines of its runs take their steps: the
-- events that were sent under an id, followed by those that its run has still to send, are the events
-- of the goals that were started under the id, each complete and in order; a message starts a goal only
-- if its id is not empty and no run of that id goes on.
pub steps-events :
    (work : ℕ → Bytes → List AgentEvent) (tenant connector k : Bytes) (xs : List Step)
    → let s = steps work xs (start_stream tenant connector) in
      events_of k s.sent ++ pending_of (get k s.runs)
      ≡ runs_events work (goals_of work k xs (start_stream tenant connector))
unfolding view start_stream events_of event_of pending_of get
steps-events work tenant connector k xs = steps-view work k xs (start_stream tenant connector)
