-- ===== src/Orchestrator/Sequence.antt =====
-- `_get_phase_sequence`: the phases of the next iteration.
use motoro.Prelude.{String, eq_text, ◌==◌, Option, none, some, List, [], ◌∷◌, get, if◌then◌else◌}
use motoro.Patterns.Plugin.{loop_control, Callable}
use motoro.Runtime.Types.{Outcome, returned, raised, Phase, sense, reason, plan, act}
use motoro.Runtime.Context.{Meta, names}
use motoro.Runtime.Loop.{phase_sequence}
use motoro.Orchestrator.Types.{
  HookResult, timed_out, failed, Setup, hooks_at, Orch, context_of, set_state,
}

-- phase_map[name], where name is in phase_map
abbrev pub phase_named : String → Option Phase
phase_named name =
    if name == "sense"
    then some sense
    else if name == "reason"
    then some reason
    else if name == "plan"
    then some plan
    else if name == "act"
    then some act
    else none

unfoldable pub known_phases : List String → List Phase
known_phases [] = []
known_phases (name ∷ more) = elim (phase_named name) [
  | none ↦ known_phases more
  | some phase ↦ phase ∷ known_phases more
]

unfoldable pub or_standard : List Phase → List Phase
or_standard [] = phase_sequence
or_standard (phase ∷ phases) = phase ∷ phases

unfoldable pub custom_sequence : Option Meta → List Phase
unfolding known_phases or_standard
custom_sequence (some (names [] s)) = []
custom_sequence (some (names (n ∷ ns) s)) = or_standard (known_phases (n ∷ ns))
custom_sequence _ = phase_sequence

-- The text of the exception that a hook ends with, if any.
abbrev pub exception_of : HookResult → Option String
exception_of timed_out = some "TimeoutError: "
exception_of (failed e) = some e
exception_of _ = none

-- What a hook of the loop returns is not looked at; an exception is only raised again in strict
-- mode.
unfoldable pub control : Setup → List (String × Callable) → Orch → Option String × Orch
control setup [] o = (none, o)
control setup ((slug, cb) ∷ hooks) o =
    let (result, s) = setup.call cb none o.run.state in
    let o' = set_state s o in
    let rest = control setup hooks o' in
    elim (exception_of result) [
      | none ↦ rest
      | some e ↦ if setup.fail_on_hook_error then (some e, o') else rest
    ]

unfoldable pub controlled : Option String × Orch → Outcome (List Phase) × Orch
unfolding custom_sequence get
controlled (some e, o) = (raised e, o)
controlled (none, o) =
    (returned (custom_sequence (get (context_of o).metadata "phase_sequence")), o)

unfoldable pub sequence_with : Setup → List (String × Callable) → Orch → Outcome (List Phase) × Orch
unfolding controlled control
sequence_with setup [] o = (returned phase_sequence, o)
sequence_with setup (hook ∷ hooks) o = controlled (control setup (hook ∷ hooks) o)

unfoldable pub get_phase_sequence : Setup → Orch → Outcome (List Phase) × Orch
unfolding sequence_with hooks_at
get_phase_sequence setup o = sequence_with setup (hooks_at setup loop_control) o
