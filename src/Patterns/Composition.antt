-- ===== src/Patterns/Composition.antt =====
-- `validate_composition` of engine/patterns/composition.py: the rules in one report.
pub mod Validity
use motoro.Prelude.{
  ℕ, ltb, String, eq_text, Bool, true, false, ◌==◌, Option, none, some, List, [], ◌∷◌, ◌++◌, map,
  Dict, get, has, length, if◌then◌else◌,
}
use motoro.Patterns.Plugin.{HookPoint, Plugin}
use motoro.Patterns.Conflicts.{Conflict, detect_conflicts}
use motoro.Patterns.Hooks.{build_ordered_hooks}
use motoro.Patterns.Dependencies.{Missing, missing_dependencies, ◌>>=◌}
use motoro.Patterns.Cycle.{detect_cycle}
use motoro.Patterns.Resolution.{Registry, build_graph, build_categories}

pub data CompositionError : Type 0 where
  unknown : String → CompositionError
  conflicting : Conflict → CompositionError
  missing : Missing → CompositionError
  circular : List String → CompositionError

-- if cycle
abbrev pub cycle_errors : Option (List String) → List CompositionError
cycle_errors (some (s ∷ ss)) = circular (s ∷ ss) ∷ []
cycle_errors _ = []

unfoldable pub resolve_dependencies :
    List String → Dict String (List String) → Dict String String → Option (List CompositionError)
unfolding missing_dependencies detect_cycle
resolve_dependencies active graph category_map = do
  lacking ← missing_dependencies active graph category_map
  cycle ← detect_cycle active graph
  some (map missing lacking ++ cycle_errors cycle)

-- A warning tells the number of the plugins.
pub record CompositionReport : Type 0 where
  pub valid : Bool
  pub errors : List CompositionError
  pub warnings : List ℕ
  pub resolved_hooks : Dict HookPoint (List String)

-- set(slugs)
unfoldable pub as_set : List String → List String
as_set [] = []
as_set (slug ∷ slugs) = let rest = as_set slugs in if has slugs slug then rest else slug ∷ rest

unfoldable pub unknown_slugs : Registry → List String → List CompositionError
unfolding get
unknown_slugs registry [] = []
unknown_slugs registry (slug ∷ slugs) = elim (get registry slug) [
  | none ↦ unknown slug ∷ unknown_slugs registry slugs
  | some meta ↦ unknown_slugs registry slugs
]

-- `instance` is the plugin of a slug with its default configuration, where a class is registered.
unfoldable pub instances : Registry → (String → Option Plugin) → List String → List Plugin
unfolding get
instances registry instance_of [] = []
instances registry instance_of (slug ∷ slugs) =
    let rest = instances registry instance_of slugs in
    elim (get registry slug) [
      | none ↦ rest
      | some meta ↦ elim (instance_of slug) [ none ↦ rest | some p ↦ p ∷ rest ]
    ]

abbrev is_empty : List CompositionError → Bool
is_empty [] = true
is_empty (e ∷ es) = false

unfoldable pub report_of : List Plugin → List CompositionError → CompositionReport
unfolding build_ordered_hooks
report_of plugins errors = record {
  valid = is_empty errors;
  errors = errors;
  warnings = if ltb 5 (length plugins) then length plugins ∷ [] else [];
  resolved_hooks = if is_empty errors then build_ordered_hooks plugins else [];
}

unfoldable pub validate_composition :
    Registry → (String → Option Plugin) → List String → Option CompositionReport
unfolding unknown_slugs instances detect_conflicts resolve_dependencies build_graph build_categories
    as_set report_of
validate_composition registry instance_of slugs =
    let plugins = instances registry instance_of slugs in
    do
      errors ←
          resolve_dependencies (as_set slugs) (build_graph registry slugs [])
            (build_categories registry slugs [])
      some (
          report_of plugins (
            unknown_slugs registry slugs ++ (map conflicting (detect_conflicts plugins) ++ errors)))
