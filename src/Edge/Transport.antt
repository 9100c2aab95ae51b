-- ===== src/Edge/Transport.antt =====
-- internal/edge/transport/transport.go: the reconnection of the call-home client, and the messages of one
-- stream with the runs that they start. gRPC and the certificates are parameters.
pub mod Backoff
pub mod Events
use skybridge.Prelude.{
  ℕ, zero, suc, ◌*◌, Bool, true, false, not, Option, none, some, List, [], ◌∷◌, ◌++◌, if◌then◌else◌,
  ltb, Bytes, Result, ok, err,
}
use skybridge.Prelude.Int.{ℤ, pos, negsuc}
use skybridge.Prelude.Dict.{Dict, get, put, delete}
use skybridge.Prelude.Text.{codes}
use skybridge.Edge.Work.{AgentEvent}

-- In nanoseconds.
abbrev pub initial_backoff : ℕ
initial_backoff = 1_000_000_000

-- `New`: the cap, with its default.
unfoldable pub max_backoff_of : ℤ → ℕ
max_backoff_of (pos (suc n)) = suc n
max_backoff_of _ = 30_000_000_000

-- One round of `Run`: an error of the certificates, or the outcome of the dial, and whether the client is
-- cancelled before the wait is over. A stream that was served ends with or without an error.
pub data Dial : Type 0 where
  dial_failed : Bytes → Dial
  served : Option Bytes → Dial

pub record Round : Type 0 where
  pub material : Option Bytes
  pub dial : Dial
  pub is_cancelled : Bool

-- How `Run` ends: with the error of the certificates, with the one of the last dial, if any, or
-- cancelled.
pub data RunEnd : Type 0 where
  bad_material : Bytes → RunEnd
  stopped : Option Bytes → RunEnd
  cancelled : RunEnd

-- The wait after a round.
unfoldable pub wait_of : ℕ → Dial → ℕ
wait_of backoff (dial_failed e) = backoff
wait_of backoff (served e) = initial_backoff

unfoldable pub dial_error : Dial → Option Bytes
dial_error (dial_failed e) = some e
dial_error (served e) = none

-- The wait doubled, up to the cap. A cap below 2^62, as every caller gives, keeps the int64 of the source
-- from wrapping around; numbers here do not wrap around.
unfoldable pub next_backoff : ℕ → ℕ → ℕ
next_backoff cap backoff = if ltb cap (backoff * 2) then cap else backoff * 2

-- The waits that were begun, and the end of `Run`, `none` where it still goes on after the rounds.
unfoldable pub run : ℕ → Bool → ℕ → List Round → List ℕ × Option RunEnd
unfolding wait_of dial_error next_backoff
run cap reconnect backoff [] = ([], none)
run cap reconnect backoff (r ∷ rs) =
    let rest = run cap reconnect (next_backoff cap (wait_of backoff r.dial)) rs in
    elim r.material [
      | some e ↦ ([], some (bad_material e))
      | none ↦
          if not reconnect
          then ([], some (stopped (dial_error r.dial)))
          else if r.is_cancelled
          then (wait_of backoff r.dial ∷ [], some cancelled)
          else (wait_of backoff r.dial ∷ rest.0, rest.1)
    ]

unfoldable pub client_run : ℤ → Bool → List Round → List ℕ × Option RunEnd
unfolding max_backoff_of run
client_run configured reconnect rs = run (max_backoff_of configured) reconnect initial_backoff rs

-- A message of the gateway; a work assignment has the id of its run and its goal.
pub data GatewayMessage : Type 0 where
  registered : GatewayMessage
  work_assignment : Bytes → Bytes → GatewayMessage
  cancel_work : Bytes → GatewayMessage
  ping : GatewayMessage
  unknown : GatewayMessage

-- A message of the client. The register message is the tenant, the connector and the version; the
-- heartbeat is the time in milliseconds.
pub data ConnectorMessage : Type 0 where
  register : Bytes → Bytes → Bytes → ConnectorMessage
  heartbeat : ℕ → ConnectorMessage
  work_event : Bytes → AgentEvent → ConnectorMessage

-- A run whose goroutine goes on: whether it is cancelled, and the events that it has still to send.
pub record Run : Type 0 where
  pub is_cancelled : Bool
  pub pending : List AgentEvent

-- The client during its first stream: the runs, and what was sent so far. Every send succeeds.
pub record State : Type 0 where
  pub runs : Dict Run
  pub sent : List ConnectorMessage

unfoldable pub start_stream : Bytes → Bytes → State
start_stream tenant connector = record {
  runs = [];
  sent = register tenant connector (codes "0.1.0") ∷ [];
}

-- `work` gives the events of the run for its goal.
unfoldable pub start_run : (Bytes → List AgentEvent) → Bytes → Bytes → Dict Run → Dict Run
start_run work [] goal runs = runs
start_run work (b ∷ run_id) goal runs = elim (get (b ∷ run_id) runs) [
  | some r ↦ runs
  | none ↦ put (b ∷ run_id) (record { is_cancelled = false; pending = work goal }) runs
]

unfoldable pub cancel_run : Bytes → Dict Run → Dict Run
cancel_run run_id runs = elim (get run_id runs) [
  | none ↦ runs
  | some r ↦ put run_id (record { is_cancelled = true; pending = r.pending }) runs
]

-- `now` is the clock at the message, and `work` gives the events that `handleWork` sends in the end for
-- a goal that is assigned then: they depend on the tools, and on whether the run is cancelled. Two runs
-- of one goal that begin at one reading of the clock have the same events here.
unfoldable pub handle_message : (ℕ → Bytes → List AgentEvent) → ℕ → GatewayMessage → State → State
unfolding start_run cancel_run
handle_message work now (work_assignment run_id goal) s = record {
  runs = start_run (work now) run_id goal s.runs;
  sent = s.sent;
}
handle_message work now (cancel_work run_id) s = record {
  runs = cancel_run run_id s.runs;
  sent = s.sent;
}
handle_message work now ping s = record { runs = s.runs; sent = s.sent ++ (heartbeat now ∷ []) }
handle_message work now _ s = s

-- What the goroutine of a run does next: it sends an event, or leaves the table behind the last one.
unfoldable pub advance : Bytes → Bool → List AgentEvent → State → State
unfolding delete
advance run_id c [] s = record { runs = delete run_id s.runs; sent = s.sent }
advance run_id c (e ∷ es) s = record {
  runs = put run_id (record { is_cancelled = c; pending = es }) s.runs;
  sent = s.sent ++ (work_event run_id e ∷ []);
}

unfoldable pub step_run : Bytes → State → State
unfolding advance
step_run run_id s = elim (get run_id s.runs) [
  | none ↦ s
  | some r ↦ advance run_id r.is_cancelled r.pending s
]

-- The steps of a stream, in any order: a message arrives, or the goroutine of a run goes on.
pub data Step : Type 0 where
  receive : ℕ → GatewayMessage → Step
  proceed : Bytes → Step

unfoldable pub step : (ℕ → Bytes → List AgentEvent) → Step → State → State
unfolding handle_message step_run
step work (receive now m) s = handle_message work now m s
step work (proceed run_id) s = step_run run_id s

unfoldable pub steps : (ℕ → Bytes → List AgentEvent) → List Step → State → State
unfolding step
steps work [] s = s
steps work (x ∷ xs) s = steps work xs (step work x s)
