-- ===== src/Tests/Edge/Transport.antt =====
-- The theorems on the call-home client at concrete inputs.
use skybridge.Prelude.{ℕ, ◌≡◌, ◌++◌, All, true, false, none, List, [], ◌∷◌, Bytes}
use skybridge.Prelude.Int.{pos}
use skybridge.Prelude.Dict.{get}
use skybridge.Prelude.Text.{codes}
use skybridge.Edge.Work.{AgentEvent, run_finished}
use skybridge.Edge.Transport.{
  initial_backoff, max_backoff_of, dial_failed, served, Round, client_run, Step, receive, proceed,
  work_assignment, ping, steps, start_stream,
}
use skybridge.Edge.Transport.Backoff.{IsBounded, IsServed, client_run-IsBounded}
use skybridge.Edge.Transport.Events.{events_of, pending_of, goals_of, runs_events}
use skybridge.Edge.Transport.Events.Runs.{steps-events}

abbrev rounds : List Round
rounds =
    record { material = none; dial = dial_failed (codes "refused"); is_cancelled = false }
    ∷ record { material = none; dial = served none; is_cancelled = false }
    ∷ []

client_run-IsBounded_example :
    let waits = (client_run (pos 1_500_000_000) true rounds).0 in
    All (IsBounded (max_backoff_of (pos 1_500_000_000))) waits
    × (All IsServed rounds → All (λ w. w ≡ initial_backoff) waits)
client_run-IsBounded_example = client_run-IsBounded (pos 1_500_000_000) true rounds

abbrev finish : ℕ → Bytes → List AgentEvent
finish now goal = run_finished (codes "final_answer") goal ∷ []

-- A run is assigned twice while it goes on.
abbrev twice : List Step
twice =
    receive 0 (work_assignment (codes "r") (codes "g"))
    ∷ receive 0 (work_assignment (codes "r") (codes "h"))
    ∷ receive 1 ping
    ∷ proceed (codes "r")
    ∷ []

steps-events_example :
    let s = steps finish twice (start_stream (codes "t") (codes "c")) in
    events_of (codes "r") s.sent ++ pending_of (get (codes "r") s.runs)
    ≡ runs_events finish (goals_of finish (codes "r") twice (start_stream (codes "t") (codes "c")))
steps-events_example = steps-events finish (codes "t") (codes "c") (codes "r") twice
