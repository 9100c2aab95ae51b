-- ===== src/Edge/Work.antt =====
-- internal/edge/transport/transport.go: the runs of a call-home stream, and the events of one run. The
-- stream itself is gRPC.
use skybridge.Prelude.{Bool, true, false, Option, none, some, List, [], ◌∷◌, Bytes}
use skybridge.Prelude.Dict.{Dict, get, put, delete}
use skybridge.Prelude.Text.{codes, Unicode}
use skybridge.Edge.Dispatch.{
  Json, boolean, text, JsonCodec, ToolCall, Handler, decode_tool_request, dispatch,
}

-- The events of a run; the terminal one is written as JSON with the fixed fields of a run.
pub data AgentEvent : Type 0 where
  tool_result : Bool → Bytes → Bytes → Bytes → AgentEvent
  run_finished : Bytes → Bytes → AgentEvent

-- `res[k].(bool)` and `res[k].(string)`, with the zero value where it is no such.
unfoldable pub bool_field : {N : Type 0} → Option (Json N) → Bool
bool_field (some (boolean b)) = b
bool_field _ = false

unfoldable pub text_field : {N : Type 0} → Option (Json N) → Bytes
text_field (some (text s)) = s
text_field _ = []

unfoldable pub output_json : Option Bytes → Bytes
output_json none = codes "{}"
output_json (some out) = out

unfoldable pub final_event : Bool → Bytes → AgentEvent
final_event true error = run_finished (codes "final_answer") []
final_event false error = run_finished (codes "error") error

module _ (c : JsonCodec) where
  unfoldable pub run_events :
      (Bytes → Bytes) → Dict (Handler c.Number) → Option (ToolCall c.Number) → List AgentEvent
  unfolding bool_field text_field output_json final_event dispatch
  run_events quoted r none =
      run_finished (codes "error") (codes "edge executes single read-only tool calls only") ∷ []
  run_events quoted r (some call) =
      let res : Dict (Json c.Number) = dispatch quoted r call in
      let is_ok : Bool = bool_field (get (codes "ok") res) in
      let error : Bytes = text_field (get (codes "error") res) in
      tool_result is_ok call.name (output_json (c.marshal res)) error ∷ final_event is_ok error ∷ []

  unfoldable pub handle_work :
      (Bytes → Bytes) → Unicode → Dict (Handler c.Number) → Bytes → List AgentEvent
  unfolding run_events decode_tool_request
  handle_work quoted u r goal = run_events quoted r (decode_tool_request c u goal)

-- The runs that have not finished, with whether each is cancelled.
unfoldable pub start_work : Bytes → Dict Bool → Option (Dict Bool)
start_work [] runs = none
start_work (b ∷ run_id) runs = elim (get (b ∷ run_id) runs) [
  | some cancelled ↦ none
  | none ↦ some (put (b ∷ run_id) false runs)
]

unfoldable pub finish_run : Bytes → Dict Bool → Dict Bool
finish_run run_id runs = delete run_id runs

unfoldable pub cancel_work : Bytes → Dict Bool → Dict Bool
cancel_work run_id runs = elim (get run_id runs) [
  | none ↦ runs
  | some cancelled ↦ put run_id true runs
]
