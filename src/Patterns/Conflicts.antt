-- ===== src/Patterns/Conflicts.antt =====
-- `detect_conflicts` of engine/patterns/composition.py. An error message is the data that it is
-- made of.
pub mod Freedom
use motoro.Prelude.{
  ℕ, ltb, String, eq_text, List, [], ◌∷◌, ◌++◌, map, Dict, get_or, put, has, length, le_text,
  if◌then◌else◌,
}
use motoro.Prelude.Sorting.{sort}
use motoro.Patterns.Plugin.{Category, execution, routing, coordination, eq_category, Plugin}

pub data Conflict : Type 0 where
  -- "At most one {cat} pattern allowed, but found {len(slugs)}: ..."
  too_many : Category → ℕ → List String → Conflict
  -- "Pattern '{p.slug}' conflicts with '{conflict_slug}' (both are active)."
  declared : String → String → Conflict

-- The set `_SINGLETON_CATEGORIES`. A set has no order of its own: this is one that it may have.
abbrev pub singleton_categories : List Category
singleton_categories = execution ∷ routing ∷ coordination ∷ []

-- by_category.setdefault(p.category, []).append(p.slug)
add_slug : Dict Category (List String) → Plugin → Dict Category (List String)
add_slug by p = put by p.category (get_or by p.category [] ++ p.slug ∷ [])

group_slugs : Dict Category (List String) → List Plugin → Dict Category (List String)
unfolding add_slug
group_slugs by [] = by
group_slugs by (p ∷ ps) = group_slugs (add_slug by p) ps

singleton_errors : Dict Category (List String) → List Category → List Conflict
singleton_errors by [] = []
singleton_errors by (cat ∷ cats) =
    let slugs = get_or by cat [] in
    (if ltb 1 (length slugs) then too_many cat (length slugs) (sort le_text slugs) ∷ [] else [])
    ++ singleton_errors by cats

conflict_errors : String → List String → List String → List Conflict
conflict_errors slug active [] = []
conflict_errors slug active (c ∷ cs) =
    (if has active c then declared slug c ∷ [] else []) ++ conflict_errors slug active cs

declared_errors : List String → List Plugin → List Conflict
unfolding conflict_errors
declared_errors active [] = []
declared_errors active (p ∷ ps) =
    conflict_errors p.slug active p.conflicts_with ++ declared_errors active ps

unfoldable pub detect_conflicts : List Plugin → List Conflict
unfolding group_slugs singleton_errors declared_errors
detect_conflicts plugins =
    singleton_errors (group_slugs [] plugins) singleton_categories
    ++ declared_errors (map (λ p. p.slug) plugins) plugins
