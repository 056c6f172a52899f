-- ===== src/Runtime/Plan.antt =====
-- `_validate_plan_tools` of engine/runtime.py, with the names that it accepts: those of
-- mcp/adapters.py (`tool_names_for_run`) and of engine/agent_channel.py (`build_agent_name_map`).
pub mod Validity
use Prim.Native.Char.{Char, code}
use Prim.Native.String
use Prim.Native.String.{String}
use motoro.Prelude.{
  concat, ℕ, suc, ltb, Bool, true, false, not, ◌==◌, ◌&&◌, ◌||◌, eq_text, eq_number, Option, none,
  some, List, [], ◌∷◌, ◌++◌, map, has, select, if◌then◌else◌,
}
use motoro.Runtime.Types.{PlanStep, PlanOutput}

-- A tool's descriptor; a missing key is the empty text.
pub record ToolDescriptor : Type 0 where
  pub name : String
  pub tool_name : String
  pub server : String

-- Python's `a or b` on texts.
infixr 30 ◌or_text◌
abbrev pub ◌or_text◌ : String → String → String
a or_text b = if a == "" then b else a

-- s[len(prefix):] if s.startswith(prefix)
pub strip_prefix : String → String → Option String
strip_prefix String.[] s = some s
strip_prefix (String.◌∷◌ c p) String.[] = none
strip_prefix (String.◌∷◌ c p) (String.◌∷◌ d s) =
    let rest = strip_prefix p s in if code c == code d then rest else none

pub record DescriptorNames : Type 0 where
  pub bare : String
  pub qualified : String

stripped : Bool → Option String → String → String
stripped true (some rest) bare = rest
stripped _ _ bare = bare

unfoldable pub descriptor_tool_names : ToolDescriptor → DescriptorNames
unfolding strip_prefix concat stripped
descriptor_tool_names tool =
    let full = tool.tool_name or_text (tool.name or_text "unknown") in
    let prefix = concat tool.server "." in
    let bare =
      stripped (not (tool.server == "") && (tool.name == "" || tool.name == full))
        (strip_prefix prefix full) full in
    record {
      bare = bare;
      qualified = if tool.server == "" then tool.name or_text bare else concat prefix bare;
    }

-- counts[bare]
abbrev pub count_bare : String → List DescriptorNames → ℕ
count_bare bare [] = 0
count_bare bare (n ∷ ns) = if n.bare == bare then suc (count_bare bare ns) else count_bare bare ns

run_names : List DescriptorNames → List DescriptorNames → List String
run_names names [] = []
run_names names (n ∷ ns) =
    (if ltb 1 (count_bare n.bare names) then n.qualified else n.bare) ∷ run_names names ns

unfoldable pub tool_names_for_run : List ToolDescriptor → List String
unfolding run_names descriptor_tool_names
tool_names_for_run tools = let names = map descriptor_tool_names tools in run_names names names

pub record Peer : Type 0 where
  pub agent_id : String
  pub name : String

-- The keys of `build_agent_name_map`. `slug` is the projected function name of a peer.
unfoldable pub agent_names : (Peer → String) → List Peer → List String
agent_names slug agents = map slug (select (λ a. not (a.agent_id == "")) agents)

-- The set `valid_names`.
unfoldable pub valid_names : (Peer → String) → List ToolDescriptor → List Peer → List String
unfolding tool_names_for_run agent_names
valid_names slug tools agents =
    tool_names_for_run tools
    ++ select (λ n. not (n == "")) (map (λ t. t.name) tools)
    ++ agent_names slug agents

-- step.tool_name and step.tool_name not in valid_names; with no valid name at all every tool name
-- is cleared, which is the same test.
names_unknown_tool : List String → Option String → Bool
names_unknown_tool valid none = false
names_unknown_tool valid (some tool) = not (tool == "") && not (has valid tool)

validate_step : List String → PlanStep → PlanStep
unfolding names_unknown_tool
validate_step valid step =
    if names_unknown_tool valid step.tool_name
    then record step { tool_name = none; tool_args = none }
    else step

unfoldable pub validate_plan_tools :
    (Peer → String) → List ToolDescriptor → List Peer → PlanOutput → PlanOutput
unfolding validate_step
validate_plan_tools slug tools agents plan = record plan {
  steps = map (validate_step (valid_names slug tools agents)) plan.steps;
}
