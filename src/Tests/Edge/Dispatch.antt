-- ===== src/Tests/Edge/Dispatch.antt =====
-- The theorems on dispatched calls at concrete inputs.
use skybridge.Prelude.{ℕ, some, [], ◌∷◌, ok}
use skybridge.Prelude.Dict.{Dict, get}
use skybridge.Prelude.Text.{codes}
use skybridge.Edge.Dispatch.{text, ToolCall, Handler, dispatch}
use skybridge.Edge.Dispatch.Answers.{IsAnswer, run_handler, dispatch-IsAnswer}

abbrev handlers : Dict (Handler ℕ)
handlers = (codes "aws_cli", (λ args. ok (some ((codes "output", text (codes "x")) ∷ [])))) ∷ []

abbrev call : ToolCall ℕ
call = record { name = codes "aws_cli"; arguments = [] }

dispatch-IsAnswer_example :
    IsAnswer
      (codes "aws_cli")
      (run_handler (get (codes "aws_cli") handlers) [])
      (dispatch (λ s. s) handlers call)
dispatch-IsAnswer_example = dispatch-IsAnswer (λ s. s) handlers call
