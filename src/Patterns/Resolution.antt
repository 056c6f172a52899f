-- ===== src/Patterns/Resolution.antt =====
-- `collect_missing_dependencies` of engine/patterns/composition.py, and the use that
-- `from_pattern_config` of engine/patterns/orchestrator.py makes of it: the slugs that a
-- configuration activates, with the patterns that fill an empty slot.
pub mod Collection
pub mod Filling
pub mod Completeness
use motoro.Prelude.{
  ℕ, zero, suc, String, eq_text, Bool, true, false, ◌==◌, ◌&&◌, ◌||◌, not, Option, none, some, List,
  [], ◌∷◌, ◌++◌, Dict, get, get_or, put, has, any, length, if◌then◌else◌,
}
use motoro.Patterns.Dependencies.{same_category, ◌>>=◌}
use motoro.Runtime.Types.{Outcome, returned, raised}

-- The sets `missing` and `visited`.
pub record Collected : Type 0 where
  pub missing : List String
  pub visited : List String

-- missing.add(dep)
abbrev pub add : String → List String → List String
add dep missing = if has missing dep then missing else missing ++ dep ∷ []

module _ (graph : Dict String (List String)) (category_map : Dict String String) where
  -- One dependency of a slug; `recurse` is the call of `_collect_transitive` for {dep}.
  collect_dep :
      (List String → String → Collected → Option Collected)
      → List String
      → String
      → String
      → Collected
      → Option Collected
  unfolding same_category
  collect_dep recurse active slug dep w =
      if has active dep
      then recurse active dep w
      else if same_category category_map slug dep
      then some w
      else (let w' = record w { missing = add dep w.missing } in
          recurse (active ++ w'.missing) dep w')

  collect_deps :
      (List String → String → Collected → Option Collected)
      → List String
      → String
      → List String
      → Collected
      → Option Collected
  unfolding collect_dep
  collect_deps recurse active slug [] w = some w
  collect_deps recurse active slug (dep ∷ deps) w = do
    w' ← collect_dep recurse active slug dep w
    collect_deps recurse active slug deps w'

  -- The fuel bounds the depth of the recursion; `none` says that it ran out.
  unfoldable pub collect_transitive : ℕ → List String → String → Collected → Option Collected
  unfolding collect_deps get_or
  collect_transitive zero active slug w = none
  collect_transitive (suc fuel) active slug w =
      if has w.visited slug
      then some w
      else collect_deps (collect_transitive fuel) active slug (get_or graph slug [])
          (record w { visited = slug ∷ w.visited })

  collect_roots : ℕ → List String → List String → Collected → Option Collected
  unfolding collect_transitive
  collect_roots fuel active [] w = some w
  collect_roots fuel active (slug ∷ slugs) w = do
    w' ← collect_transitive fuel active slug w
    collect_roots fuel active slugs w'

-- All that a graph names.
abbrev pub all_deps : Dict String (List String) → List String
all_deps [] = []
all_deps ((slug, deps) ∷ graph) = deps ++ all_deps graph

abbrev missing_of : Option Collected → Option (List String)
missing_of none = none
missing_of (some w) = some w.missing

unfoldable pub collect_missing_dependencies :
    List String → Dict String (List String) → Dict String String → Option (List String)
unfolding collect_roots
collect_missing_dependencies active graph category_map = missing_of (
    collect_roots graph category_map (suc (length (active ++ all_deps graph))) active active
      (record { missing = []; visited = [] }))

-- What the registry tells of a plugin class.
pub record PluginClass : Type 0 where
  pub dependencies : List String
  pub category : String

abbrev pub Registry : Type 0
Registry = Dict String PluginClass

unfoldable pub build_graph :
    Registry → List String → Dict String (List String) → Dict String (List String)
unfolding get put
build_graph registry [] graph = graph
build_graph registry (slug ∷ slugs) graph = elim (get registry slug) [
  | none ↦ build_graph registry slugs graph
  | some c ↦ build_graph registry slugs (put graph slug c.dependencies)
]

dep_categories : Registry → List String → Dict String String → Dict String String
unfolding get put
dep_categories registry [] categories = categories
dep_categories registry (dep ∷ deps) categories = elim (get registry dep) [
  | none ↦ dep_categories registry deps categories
  | some c ↦ dep_categories registry deps (put categories dep c.category)
]

unfoldable pub build_categories : Registry → List String → Dict String String → Dict String String
unfolding get put dep_categories
build_categories registry [] categories = categories
build_categories registry (slug ∷ slugs) categories = elim (get registry slug) [
  | none ↦ build_categories registry slugs categories
  | some c ↦
      build_categories registry slugs
        (dep_categories registry c.dependencies (put categories slug c.category))
]

abbrev pub auto_resolve_categories : List String
auto_resolve_categories = "execution" ∷ "routing" ∷ "coordination" ∷ []

abbrev in_category : String → Option String → Bool
in_category c none = false
in_category c (some d) = d == c

-- dep_cat in auto_resolve_categories and not slot_occupied
unfoldable pub fills_slot : Dict String String → List String → Option String → Bool
unfolding get
fills_slot category_map taken none = false
fills_slot category_map taken (some c) =
    has auto_resolve_categories c && not (any (λ s. in_category c (get category_map s)) taken)

-- The lists `auto_added` and `unresolved`.
pub record Resolution : Type 0 where
  pub auto_added : List String
  pub unresolved : List (String × String)

module _ (active : List String) (category_map : Dict String String) (missing : List String) where
  resolve_dep : String → String → Resolution → Resolution
  unfolding fills_slot get
  resolve_dep slug dep r =
      if has active dep || has r.auto_added dep
      then r
      else if not (has missing dep)
      then r
      else if fills_slot category_map (active ++ r.auto_added) (get category_map dep)
      then record r { auto_added = r.auto_added ++ dep ∷ [] }
      else record r { unresolved = r.unresolved ++ (slug, dep) ∷ [] }

  resolve_deps : String → List String → Resolution → Resolution
  unfolding resolve_dep
  resolve_deps slug [] r = r
  resolve_deps slug (dep ∷ deps) r = resolve_deps slug deps (resolve_dep slug dep r)

  resolve_all : Dict String (List String) → List String → Resolution → Resolution
  unfolding resolve_deps get_or
  resolve_all graph [] r = r
  resolve_all graph (slug ∷ slugs) r =
      resolve_all graph slugs (resolve_deps slug (get_or graph slug []) r)

-- The error names the dependencies that are not resolved.
pub data Resolved : Type 0 where
  active_slugs : List String → Resolved
  lacking_slugs : List (String × String) → Resolved

abbrev pub conclude : List String → List (String × String) → Resolved
conclude slugs [] = active_slugs slugs
conclude slugs (u ∷ us) = lacking_slugs (u ∷ us)

abbrev pub concluded : List String → Resolution → Resolved
concluded active r = conclude (active ++ r.auto_added) r.unresolved

abbrev resolve_with :
    Dict String (List String)
    → Dict String String
    → List String
    → Option (List String)
    → Option Resolved
resolve_with graph category_map active none = none
resolve_with graph category_map active (some missing) = some (
    concluded active (
      resolve_all active category_map missing graph active
        (record { auto_added = []; unresolved = [] })))

unfoldable pub resolve_slugs : Registry → List String → Option Resolved
unfolding build_graph build_categories collect_missing_dependencies resolve_all
resolve_slugs registry active =
    let graph = build_graph registry active [] in
    let category_map = build_categories registry active [] in
    resolve_with graph category_map active (collect_missing_dependencies active graph category_map)
