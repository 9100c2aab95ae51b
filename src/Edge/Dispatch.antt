-- ===== src/Edge/Dispatch.antt =====
-- internal/edge/envelope.go and internal/edge/dispatch.go: a tool call is read from the goal of a run
-- and answered by the handler of its name. encoding/json and its numbers are parameters.
pub mod Answers
use skybridge.Prelude.{
  ℕ, Bool, true, false, not, ◌&&◌, ◌||◌, Option, none, some, List, [], ◌∷◌, ◌++◌, if◌then◌else◌,
  map, Bytes, Result, ok, err,
}
use skybridge.Prelude.Dict.{Dict, get, put}
use skybridge.Prelude.Text.{codes, has_prefix, contains, Unicode, trim_space}

-- A value of the type `any` that encoding/json makes, over the type of its numbers.
mutual
  pub data Json (N : Type 0) : Type 0 where
    null : Json N
    boolean : Bool → Json N
    number : N → Json N
    text : Bytes → Json N
    array : Items N → Json N
    object : Members N → Json N

  pub data Items (N : Type 0) : Type 0 where
    no_items : Items N
    item : Json N → Items N → Items N

  pub data Members (N : Type 0) : Type 0 where
    no_members : Members N
    member : Bytes → Json N → Members N → Members N

-- json.Marshal, json.Unmarshal into a map, and the test of `int(v)` for a number.
pub record JsonCodec : Type 1 where
  pub Number : Type 0
  pub one : Number
  pub is_one : Number → Bool
  pub marshal : Dict (Json Number) → Option Bytes
  pub unmarshal : Bytes → Option (Dict (Json Number))

unfoldable pub dict_of : {N : Type 0} → Members N → Dict (Json N)
dict_of no_members = []
dict_of (member k v ms) = (k, v) ∷ dict_of ms

unfoldable pub members_of : {N : Type 0} → Dict (Json N) → Members N
members_of [] = no_members
members_of ((k, v) ∷ m) = member k v (members_of m)

abbrev pub envelope_key : Bytes
envelope_key = codes "__curlix_mcp_tool__"

pub record ToolCall (N : Type 0) : Type 0 where
  pub name : Bytes
  pub arguments : Dict (Json N)

module _ (c : JsonCodec) where
  -- The version is `envelopeVersion`, 1.
  unfoldable pub encode_tool_request : Bytes → Dict (Json c.Number) → Option Bytes
  unfolding members_of
  encode_tool_request name arguments = c.marshal (
      put (codes "arguments") (object (members_of arguments))
        (put (codes "name") (text name) (put envelope_key (number c.one) [])))

  unfoldable pub has_version : Option (Json c.Number) → Bool
  has_version (some (number v)) = c.is_one v
  has_version _ = false

  unfoldable pub arguments_of : Option (Json c.Number) → Dict (Json c.Number)
  unfolding dict_of
  arguments_of (some (object ms)) = dict_of ms
  arguments_of _ = []

  unfoldable pub call_named : Bytes → Dict (Json c.Number) → Option (ToolCall c.Number)
  call_named [] obj = none
  call_named (b ∷ name) obj =
      some (record { name = b ∷ name; arguments = arguments_of (get (codes "arguments") obj) })

  unfoldable pub name_of : Unicode → Option (Json c.Number) → Bytes
  name_of u (some (text name)) = trim_space u name
  name_of u _ = []

  unfoldable pub tool_call : Unicode → Option (Dict (Json c.Number)) → Option (ToolCall c.Number)
  unfolding has_version call_named arguments_of name_of
  tool_call u none = none
  tool_call u (some obj) =
      if has_version (get envelope_key obj)
      then call_named (name_of u (get (codes "name") obj)) obj
      else none

  unfoldable pub decode_tool_request : Unicode → Bytes → Option (ToolCall c.Number)
  unfolding tool_call
  decode_tool_request u goal =
      if has_prefix (trim_space u goal) (codes "{") && contains (trim_space u goal) envelope_key
      then tool_call u (c.unmarshal (trim_space u goal))
      else none

-- A handler's result, `none` for nil, or the text of its error.
abbrev pub Handler : Type 0 → Type 0
Handler N = Dict (Json N) → Result Bytes (Option (Dict (Json N)))

pub data WiringError : Type 0 where
  empty_name : WiringError

module _ {N : Type 0} where
  -- `Register`, with a handler that is not nil.
  unfoldable pub register :
      Bytes → Handler N → Dict (Handler N) → Result WiringError (Dict (Handler N))
  register [] h r = err empty_name
  register (b ∷ name) h r = ok (put (b ∷ name) h r)

  unfoldable pub has : Bytes → Dict (Handler N) → Bool
  has name r = elim (get name r) [ none ↦ false | some h ↦ true ]

  unfoldable pub error_result : Bytes → Bytes → Dict (Json N)
  error_result tool msg =
      put (codes "error") (text msg)
        (put (codes "tool") (text tool) (put (codes "ok") (boolean false) []))

  unfoldable pub put_absent : Bytes → Json N → Dict (Json N) → Dict (Json N)
  put_absent k v m = elim (get k m) [ none ↦ put k v m | some w ↦ m ]

  -- The fields that every result has.
  unfoldable pub completed : Bytes → Dict (Json N) → Dict (Json N)
  unfolding put_absent
  completed name res =
      put_absent (codes "ok") (boolean true) (put_absent (codes "tool") (text name) res)

  unfoldable pub finished : Bytes → Result Bytes (Option (Dict (Json N))) → Dict (Json N)
  unfolding completed error_result
  finished name (err msg) = error_result name msg
  finished name (ok none) = completed name []
  finished name (ok (some res)) = completed name res

  -- `quoted` is the name as fmt's %q writes it.
  unfoldable pub dispatch : (Bytes → Bytes) → Dict (Handler N) → ToolCall N → Dict (Json N)
  unfolding finished error_result
  dispatch quoted r call = elim (get call.name r) [
    | none ↦
        error_result call.name
          (codes "tool " ++ (quoted call.name ++ codes " is not handled at the edge"))
    | some h ↦ finished call.name (h call.arguments)
  ]
