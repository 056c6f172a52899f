-- ===== src/Patterns/Composition/Validity.antt =====
-- A composition is valid exactly when it keeps the rules.
use motoro.Prelude.{String, eq_text, Option, none, some, List, [], get, All, ◌≡◌, ◌≢◌}
use motoro.Patterns.Plugin.{Plugin}
use motoro.Patterns.Conflicts.{detect_conflicts}
use motoro.Patterns.Dependencies.{Missing}
use motoro.Patterns.Dependencies.Exactness.{IsMissing}
use motoro.Patterns.Cycle.{detect_cycle}
use motoro.Patterns.Resolution.{Registry, build_graph, build_categories}
use motoro.Patterns.Composition.{as_set, instances}

-- The rules, for the instances of the slugs and the set of them: each slug is known; no conflict is
-- detected; no dependency is missing; no cycle is found.
abbrev pub Composes : Registry → (String → Option Plugin) → List String → Type 0
Composes registry instance_of slugs =
    All (λ s. get registry s ≢ none) slugs
    × (detect_conflicts (instances registry instance_of slugs) ≡ [])
    × ((m : Missing)
        → ¬ IsMissing (as_set slugs) (build_graph registry slugs [])
            (build_categories registry slugs []) m)
    × (detect_cycle (as_set slugs) (build_graph registry slugs []) ≡ some none)
