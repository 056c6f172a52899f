-- ===== src/Runtime/Calls.antt =====
-- The value that `_execute_phase` of engine/runtime.py stores as `RunStep.tool_call`, and
-- `flatten_tool_call_records` of schemas/llm.py, which reads it.
pub mod Reading
use motoro.Prelude.{
  String, eq_text, Bool, true, false, ◌==◌, ◌&&◌, Option, none, some, List, [], ◌∷◌, if◌then◌else◌,
}
use motoro.Runtime.Types.{Output, plan_output, act_output, other_output, StepResult, ToolCallRecord}

-- A stored JSON value. The arguments of a call are JSON text here.
mutual
  pub data JsonValue : Type 0 where
    text : String → JsonValue
    flag : Bool → JsonValue
    items : JsonItems → JsonValue
    object : JsonFields → JsonValue

  pub data JsonItems : Type 0 where
    no_items : JsonItems
    item : JsonValue → JsonItems → JsonItems

  pub data JsonFields : Type 0 where
    no_fields : JsonFields
    field : String → JsonValue → JsonFields → JsonFields

-- d.get(key)
unfoldable pub lookup : String → JsonFields → Option JsonValue
lookup key no_fields = none
lookup key (field k v fields) = if k == key then some v else lookup key fields

-- r.tool_call.model_dump()
unfoldable pub dump_call : ToolCallRecord → JsonValue
dump_call call = object (
    field "server" (text call.server) (
      field "tool" (text call.tool) (
        field "arguments" (text call.arguments)
          (field "result" (text call.result) (field "success" (flag call.success) no_fields)))))

unfoldable pub result_calls : List StepResult → JsonItems
unfolding dump_call
result_calls [] = no_items
result_calls (r ∷ rs) = elim r.tool_call [
  | none ↦ result_calls rs
  | some call ↦ item (dump_call call) (result_calls rs)
]

is_success : Option JsonValue → Bool
is_success (some (flag b)) = b
is_success _ = false

-- c.get("success", False)
succeeded : JsonValue → Bool
unfolding lookup is_success
succeeded (object fields) = is_success (lookup "success" fields)
succeeded _ = false

all_succeeded : JsonItems → Bool
unfolding succeeded
all_succeeded no_items = true
all_succeeded (item c cs) = succeeded c && all_succeeded cs

-- One call as it is, several together.
unfoldable pub pack_calls : JsonItems → Option JsonValue
unfolding all_succeeded
pack_calls no_items = none
pack_calls (item call no_items) = some call
pack_calls (item a (item b rest)) =
    let calls = item a (item b rest) in
    some (
      object (field "calls" (items calls) (field "success" (flag (all_succeeded calls)) no_fields)))

unfoldable pub tool_call_data : Output → Option JsonValue
unfolding pack_calls result_calls
tool_call_data (act_output o) = pack_calls (result_calls o.results)
tool_call_data (plan_output o) = none
tool_call_data (other_output o) = none

-- [c for c in calls if isinstance(c, dict)]
only_objects : JsonItems → JsonItems
only_objects no_items = no_items
only_objects (item (object fields) rest) = item (object fields) (only_objects rest)
only_objects (item _ rest) = only_objects rest

-- What is found under "calls" in the value.
flatten_found : JsonValue → Option JsonValue → JsonItems
unfolding only_objects
flatten_found tool_call (some (items calls)) = only_objects calls
flatten_found tool_call _ = item tool_call no_items

unfoldable pub flatten_tool_call_records : Option JsonValue → JsonItems
unfolding flatten_found lookup
flatten_tool_call_records (some (object fields)) =
    flatten_found (object fields) (lookup "calls" fields)
flatten_tool_call_records _ = no_items
