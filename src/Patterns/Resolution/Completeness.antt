-- ===== src/Patterns/Resolution/Completeness.antt =====
-- The slugs that a configuration activates have their dependencies, or the configuration is refused.
use motoro.Prelude.{
  String, eq_text, Bool, true, false, ◌||◌, List, [], ◌∷◌, ◌++◌, Dict, get_or, has, ◌≡◌, All,
}
use motoro.Patterns.Dependencies.{same_category}
use motoro.Patterns.Resolution.{
  Registry, build_graph, build_categories, Resolution, Resolved, active_slugs, lacking_slugs,
}
use motoro.Patterns.Resolution.Filling.{Fills, Lacks}
use motoro.Patterns.Resolution.Collection.{Handled}

-- Active, added, excused, or among the unresolved ones, of which there are some then.
abbrev settled : List String → Dict String String → Resolution → String → String → Bool
settled active category_map r slug dep =
    has (active ++ r.auto_added) dep || same_category category_map slug dep

abbrev none_left : List (String × String) → Bool
none_left [] = true
none_left (u ∷ us) = false

module _ (active : List String) (graph : Dict String (List String))
    (category_map : Dict String String) (missing : List String)
    (handled : (slug : String)
      → has active slug ≡ true
      → Handled active graph category_map missing slug) where
  record Resolves (r r' : Resolution) : Type 0 where
    pub added : List String
    pub appended : r'.auto_added ≡ r.auto_added ++ added
    pub all_left : none_left r'.unresolved ≡ true → none_left r.unresolved ≡ true
    pub fills : Fills active graph category_map (active ++ r.auto_added) added
    pub genuine :
        All (Lacks active graph category_map (active ++ r.auto_added)) r.unresolved
        → All (Lacks active graph category_map (active ++ r'.auto_added)) r'.unresolved

-- The slugs of a configuration with what fills its slots, in which each dependency of an active slug
-- stands, or is excused by its category; or what it lacks beside what fills its slots.
abbrev pub Valid : Registry → List String → Resolved → Type 0
Valid registry active (active_slugs slugs) =
    let graph = build_graph registry active [] in
    let category_map = build_categories registry active [] in
    ((added : List String) × ((slugs ≡ active ++ added)
        × Fills active graph category_map active added))
    × All
        (λ slug.
          All (λ dep. (has slugs dep || same_category category_map slug dep) ≡ true)
            (get_or graph slug []))
        active
Valid registry active (lacking_slugs lacking) =
    let graph = build_graph registry active [] in
    let category_map = build_categories registry active [] in
    (none_left lacking ≡ false)
    × ((added : List String) × (Fills active graph category_map active added
          × All (Lacks active graph category_map (active ++ added)) lacking))
