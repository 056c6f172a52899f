-- ===== src/Orchestrator/Abort.antt =====
-- `_resolve_abort`: the status and the output of a run that a hook has aborted.
use motoro.Prelude.{
  String, eq_text, Bool, ◌==◌, contains_text, concat, lower, Option, none, some, get, get_or,
  if◌then◌else◌,
}
use motoro.Runtime.Types.{
  sense, reason, act, eq_phase, RunStatus, completed, failed, Output, act_output, other_output,
}
use motoro.Runtime.Context.{RunContext, Meta, null, text, scalar, other, names, object}
use motoro.Orchestrator.Types.{Setup}

-- str(value)
abbrev pub meta_text : Meta → String
meta_text null = "None"
meta_text (text s) = s
meta_text (scalar s) = s
meta_text (other s) = s
meta_text (names ns s) = s
meta_text (object json s) = s

-- A value that is missing or null.
abbrev pub present : Option Meta → Option Meta
present none = none
present (some null) = none
present (some m) = some m

-- final_output_override, where it is not None
abbrev pub override_of : RunContext → Option Meta
override_of c = present (get c.metadata "final_output_override")

abbrev pub override_json : Meta → String
override_json (object json s) = json
override_json m = meta_text m

-- `lower` is exact here: no character outside ASCII has a small letter of these words.
unfoldable pub is_partial : String → Bool
unfolding contains_text lower
is_partial error = contains_text "partial results" (lower error)

pub record Resolved : Type 0 where
  pub status : RunStatus
  pub output : String
  pub error : Option String

-- What the phases have reached, where the run itself has no output yet.
reached_sense : Option Output → String
reached_sense none = "[Partial — no phases completed before timeout]"
reached_sense (some m) = "[Partial — only Sense phase completed]"

reached_reason : Setup → Option Output → Option Output → String
unfolding concat reached_sense
reached_reason setup (some (other_output t)) sensed =
    if setup.is_reason t
    then concat "[Partial — completed through Reason phase] " (setup.strategy t)
    else reached_sense sensed
reached_reason setup _ sensed = reached_sense sensed

reached_act : Setup → Option Output → Option Output → Option Output → String
unfolding reached_reason
reached_act setup (some (act_output a)) reasoned sensed = a.final_response
reached_act setup _ reasoned sensed = reached_reason setup reasoned sensed

pub partial_output : Setup → RunContext → String
unfolding reached_act get
partial_output setup c =
    reached_act setup (get c.phase_outputs act) (get c.phase_outputs reason)
      (get c.phase_outputs sense)

unfoldable pub resolve_error : Setup → RunContext → String → String → Resolved
unfolding is_partial partial_output
resolve_error setup c current_output error =
    if is_partial error
    then record {
      status = completed;
      output = if current_output == "" then partial_output setup c else current_output;
      error = some error;
    }
    else record { status = failed; output = current_output; error = some error }

unfoldable pub resolve_override : Setup → RunContext → String → Option Meta → Resolved
unfolding resolve_error get_or
resolve_override setup c current_output (some m) = record {
  status = completed;
  output = override_json m;
  error = none;
}
resolve_override setup c current_output none =
    resolve_error setup c current_output
      (meta_text (get_or c.metadata "abort_error" (text "Aborted by hook")))

unfoldable pub resolve_abort : Setup → RunContext → String → Resolved
unfolding resolve_override get
resolve_abort setup c current_output = resolve_override setup c current_output (override_of c)
