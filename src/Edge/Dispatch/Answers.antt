-- ===== src/Edge/Dispatch/Answers.antt =====
-- internal/edge/dispatch.go: every dispatched call is answered.
use skybridge.Prelude.{
  ◌≡◌, refl, ap, ◌∙◌, arith, Bool, true, false, Option, none, some, [], if◌then◌else◌, Bytes,
  bytes_equal, bytes_equal_iff, Result, ok, err, Option-cases, inl, inr,
}
use skybridge.Prelude.Dict.{Dict, get, put, get-put}
use skybridge.Prelude.Text.{codes}
use skybridge.Edge.Dispatch.{
  Json, boolean, text, ToolCall, Handler, error_result, put_absent, completed, finished, dispatch,
}

differs : (j : Bytes) → bytes_equal (codes "ok") j ≡ true → bytes_equal (codes "tool") j ≡ false
unfolding bytes_equal
differs j h = rw (← (bytes_equal_iff (codes "ok") j).0 h) refl

module _ {N : Type 0} where
  -- What a field is, with a default where it is absent.
  pub value_or : Json N → Option (Json N) → Json N
  value_or d none = d
  value_or d (some v) = v

  get-put_absent :
      (k : Bytes) (v : Json N) (m : Dict (Json N)) (j : Bytes)
      → get j (put_absent k v m)
        ≡ (if bytes_equal k j then some (value_or v (get j m)) else get j m)
  unfolding put_absent value_or
  get-put_absent k v m j = elim (Option-cases (get k m)) [
    | inl e ↦ ground (arith, e, bytes_equal_iff k j, get-put k v j m)
    | inr (w, e) ↦ ground (arith, e, bytes_equal_iff k j)
  ]

  -- What a handler's result is for the caller: its own fields, and `ok` and `tool` in any case.
  pub answer_field : Bytes → Bytes → Option (Json N) → Option (Json N)
  answer_field name j own =
      if bytes_equal (codes "ok") j
      then some (value_or (boolean true) own)
      else if bytes_equal (codes "tool") j
      then some (value_or (text name) own)
      else own

  one_default :
      (a t : Bool) (d : Json N) (own tool : Option (Json N))
      → (a ≡ true → t ≡ false)
      → (if a then some (value_or d (if t then tool else own)) else if t then tool else own)
        ≡ (if a then some (value_or d own) else if t then tool else own)
  one_default true t d own tool apart = rw (apart refl) refl
  one_default false t d own tool apart = refl

  get-completed :
      (name : Bytes) (res : Dict (Json N)) (j : Bytes)
      → get j (completed name res) ≡ answer_field name j (get j res)
  unfolding completed answer_field
  get-completed name res j =
      get-put_absent (codes "ok") (boolean true) (put_absent (codes "tool") (text name) res) j
      ∙ ap (λ x. if bytes_equal (codes "ok") j then some (value_or (boolean true) x) else x)
          (get-put_absent (codes "tool") (text name) res j)
      ∙ one_default (bytes_equal (codes "ok") j) (bytes_equal (codes "tool") j) (boolean true)
          (get j res) (some (value_or (text name) (get j res))) (differs j)

  get-error_result :
      (name msg : Bytes)
      → (get (codes "ok") (error_result {N = N} name msg) ≡ some (boolean false))
        × (get (codes "tool") (error_result {N = N} name msg) ≡ some (text name))
  unfolding error_result get put bytes_equal
  get-error_result name msg = (refl, refl)

  -- What the caller reads under a key, of a handler that returned `outcome`, or of none.
  pub IsAnswer : Bytes → Option (Result Bytes (Option (Dict (Json N)))) → Dict (Json N) → Type 0
  IsAnswer name (some (ok (some own))) res =
      (j : Bytes) → get j res ≡ answer_field name j (get j own)
  IsAnswer name (some (ok none)) res = (j : Bytes) → get j res ≡ answer_field name j none
  IsAnswer name _ res =
      (get (codes "ok") res ≡ some (boolean false)) × (get (codes "tool") res ≡ some (text name))

  finished-IsAnswer :
      (name : Bytes) (outcome : Result Bytes (Option (Dict (Json N))))
      → IsAnswer name (some outcome) (finished name outcome)
  unfolding finished IsAnswer get
  finished-IsAnswer name (err msg) = get-error_result name msg
  finished-IsAnswer name (ok none) = λ j. get-completed name [] j
  finished-IsAnswer name (ok (some res)) = λ j. get-completed name res j

  -- What the handler of a name does with the arguments, if there is one.
  pub run_handler :
      Option (Handler N) → Dict (Json N) → Option (Result Bytes (Option (Dict (Json N))))
  run_handler none args = none
  run_handler (some h) args = some (h args)

  found-IsAnswer :
      (quoted : Bytes → Bytes) (r : Dict (Handler N)) (call : ToolCall N) (o : Option (Handler N))
      → get call.name r ≡ o
      → IsAnswer call.name (run_handler o call.arguments) (dispatch quoted r call)
  unfolding dispatch IsAnswer run_handler
  found-IsAnswer quoted r call none e = rw (e, dispatch) (get-error_result call.name _)
  found-IsAnswer quoted r call (some h) e =
      rw (e, dispatch) (finished-IsAnswer call.name (h call.arguments))

  -- Every dispatched call is answered. If the name has no handler, or its handler fails, the answer says
  -- `ok` false and the tool's name. Else it has under each key what the handler has put there, and
  -- under `ok` and `tool`, where the handler has put nothing, true and the name.
  pub dispatch-IsAnswer :
      (quoted : Bytes → Bytes) (r : Dict (Handler N)) (call : ToolCall N)
      → IsAnswer call.name (run_handler (get call.name r) call.arguments) (dispatch quoted r call)
  dispatch-IsAnswer quoted r call = found-IsAnswer quoted r call (get call.name r) refl
