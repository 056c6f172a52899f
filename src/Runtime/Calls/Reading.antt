-- ===== src/Runtime/Calls/Reading.antt =====
-- What a reader finds in the flattened calls of a stored step.
use motoro.Prelude.{
  eq_text, Option, none, some, List, [], ◌∷◌, ◌++◌, ◌≡◌, refl, Option-cases, inl, inr,
}
use motoro.Runtime.Types.{Output, plan_output, act_output, other_output, StepResult, ToolCallRecord}
use motoro.Runtime.Calls.{
  text, flag, object, JsonItems, no_items, item, lookup, dump_call, result_calls, pack_calls,
  tool_call_data, only_objects, flatten_found, flatten_tool_call_records,
}

-- One object for each call, in order, that has the five fields of the call.
abbrev pub Records : List ToolCallRecord → JsonItems → Type 0
Records [] no_items = Unit
Records (c ∷ cs) (item (object fields) rest) =
    (lookup "server" fields ≡ some (text c.server))
    × (lookup "tool" fields ≡ some (text c.tool))
    × (lookup "arguments" fields ≡ some (text c.arguments))
    × (lookup "result" fields ≡ some (text c.result))
    × (lookup "success" fields ≡ some (flag c.success))
    × Records cs rest
Records _ _ = ⊥

-- The call of one result, if it made one.
abbrev pub own_call : Option ToolCallRecord → List ToolCallRecord
own_call none = []
own_call (some c) = c ∷ []

abbrev pub calls_made : List StepResult → List ToolCallRecord
calls_made [] = []
calls_made (r ∷ rs) = own_call r.tool_call ++ calls_made rs

-- The calls that an output reports: those of its results, for an output of the act phase alone.
abbrev pub reported : Output → List ToolCallRecord
reported (act_output o) = calls_made o.results
reported (plan_output p) = []
reported (other_output t) = []

Records-result_calls :
    (rs : List StepResult) → Records (calls_made rs) (only_objects (result_calls rs))
unfolding result_calls only_objects dump_call lookup
Records-result_calls [] = tt
Records-result_calls (r ∷ rs) = elim (Option-cases r.tool_call) [
  | inl e ↦ rw e (Records-result_calls rs)
  | inr (c, e) ↦ rw e (refl, refl, refl, refl, refl, Records-result_calls rs)
]

flatten-item :
    (c : ToolCallRecord) (rest : JsonItems)
    → flatten_tool_call_records (pack_calls (item (dump_call c) rest))
      ≡ only_objects (item (dump_call c) rest)
unfolding flatten_tool_call_records pack_calls only_objects dump_call flatten_found lookup
flatten-item c no_items = refl
flatten-item c (item d rest) = refl

-- The shapes of the stored value do not show after flattening.
flatten-pack_calls :
    (rs : List StepResult)
    → flatten_tool_call_records (pack_calls (result_calls rs)) ≡ only_objects (result_calls rs)
unfolding result_calls
flatten-pack_calls [] = unfold flatten_tool_call_records pack_calls only_objects in refl
flatten-pack_calls (r ∷ rs) = elim (Option-cases r.tool_call) [
  | inl e ↦ rw e (flatten-pack_calls rs)
  | inr (c, e) ↦ rw e (flatten-item c (result_calls rs))
]

-- Flattening the tool_call value of a step, which holds one call as it is and several in a list,
-- gives one object for each call that the step's output reports, successful or not, in order, with
-- the server, the tool, the arguments, the result and the success of the call.
pub flatten-tool_call_data :
    (o : Output) → Records (reported o) (flatten_tool_call_records (tool_call_data o))
unfolding tool_call_data
flatten-tool_call_data (act_output o) =
    rw (flatten-pack_calls o.results) (Records-result_calls o.results)
flatten-tool_call_data (plan_output o) = unfold flatten_tool_call_records in tt
flatten-tool_call_data (other_output o) = unfold flatten_tool_call_records in tt
