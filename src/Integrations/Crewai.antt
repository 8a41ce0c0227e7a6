-- ===== src/Integrations/Crewai.antt =====
-- src/exactly_once/integrations/crewai.py: the `_run` of a tool, guarded under its arguments.
use exactly_once.Prelude.{String, Option, none, some, List, [], str_append}
use exactly_once.Errors.{Result, ok, err, value_error}
use exactly_once.Dict.{Dict}
use exactly_once.Values.{Value, arr, obj, field, end_fields, items, fields}
use exactly_once.Keys.{Builtins, take_text}
use exactly_once.Program.{Program, from_result, ◌>>=◌}
use exactly_once.Core.Wrapper.{decorated}
use exactly_once.Integrations.Langgraph.{Guarding, settings_of, effect}

-- A tool: its attribute `name`, the name of its class, and its `_run`.
pub record Tool {C : Type 0} (R : C → Type 0) : Type 0 where
  pub name : Option String
  pub class_name : String
  pub run_method : List Value → Dict Value → Program R Value

-- The argument `key`: a text, or a function of the arguments (and of the tool, which it stands for).
pub data ToolKey : Type 0 where
  static : String → ToolKey
  extractor : (List Value → Dict Value → Result String) → ToolKey

abbrev pub tool_name : {C : Type 0} {R : C → Type 0} → Tool R → String
tool_name tool = elim tool.name [ none ↦ tool.class_name | some n ↦ n ]

abbrev pub tool_payload : List Value → Dict Value → Value
tool_payload args kwargs =
    obj (field "args" (arr (items args)) (field "kwargs" (obj (fields kwargs)) end_fields))

-- `dumps` is `json.dumps(…, sort_keys=True, default=str)`, `none` where it raises ValueError.
module _ (py : Builtins) (dumps : Value → Option String) where
  abbrev hash_key : String → String → Result String
  hash_key name text = elim (py.encode_text text) [
    | none ↦ err value_error
    | some raw ↦ ok (str_append name (str_append ":" (take_text 32 (py.hexdigest raw))))
  ]

  unfoldable pub resolve_tool_key :
      {C : Type 0} {R : C → Type 0}
      → Option ToolKey
      → Tool R
      → List Value
      → Dict Value
      → Result String
  unfolding take_text
  resolve_tool_key (some (ToolKey.extractor f)) tool args kwargs = f args kwargs
  resolve_tool_key (some (ToolKey.static k)) tool args kwargs = ok k
  resolve_tool_key none tool args kwargs = elim (dumps (tool_payload args kwargs)) [
    | none ↦ err value_error
    | some text ↦ hash_key (tool_name tool) text
  ]

  -- A call of the method that `once_tool_run` returns.
  unfoldable pub once_tool_run :
      {C : Type 0} {R : C → Type 0}
      → Option ToolKey
      → Guarding R
      → Tool R
      → List Value
      → Dict Value
      → Program R Value
  unfolding resolve_tool_key decorated
  once_tool_run key g tool args kwargs = do
    k ← from_result (resolve_tool_key key tool args kwargs)
    decorated py (settings_of g k) (effect (tool.run_method args kwargs)) [] []
