-- ===== src/Patterns/Dependencies.antt =====
-- `resolve_dependencies` and `_check_transitive` of engine/patterns/composition.py. A set is the
-- list of its entries, in the order in which Python happens to go through it.
pub mod Exactness
use motoro.Prelude.{
  ℕ, zero, suc, String, eq_text, Bool, true, false, ◌==◌, ◌&&◌, Option, none, some, List, [], ◌∷◌,
  ◌++◌, Dict, get, get_or, has, length, not, if◌then◌else◌,
}

-- "Pattern '{slug}' requires '{dep}', which is not active."
pub record Missing : Type 0 where
  pub slug : String
  pub dep : String

-- What `_check_transitive` changes: the list of errors and the set `visited`.
pub record Walk : Type 0 where
  pub errors : List Missing
  pub visited : List String

-- if slug_cat and dep_cat and slug_cat == dep_cat
abbrev both_same : Option String → Option String → Bool
both_same (some a) (some b) = not (a == "") && (not (b == "") && a == b)
both_same _ _ = false

-- A category map of `None` is the empty one: both are false.
unfoldable pub same_category : Dict String String → String → String → Bool
unfolding get
same_category category_map slug dep = both_same (get category_map slug) (get category_map dep)

infixl 5 ◌>>=◌
abbrev pub ◌>>=◌ : {A B : Type 0} → Option A → (A → Option B) → Option B
none >>= f = none
some a >>= f = f a

module _ (active : List String) (graph : Dict String (List String))
    (category_map : Dict String String) where
  -- The body of the loop over `graph.get(slug, [])`, with the recursive call as an argument.
  visit_dep : (String → Walk → Option Walk) → String → String → Walk → Option Walk
  visit_dep recurse slug dep w =
      if has active dep
      then recurse dep w
      else if same_category category_map slug dep
      then some w
      else some (record w { errors = w.errors ++ record { slug = slug; dep = dep } ∷ [] })

  visit_deps : (String → Walk → Option Walk) → String → List String → Walk → Option Walk
  visit_deps recurse slug [] w = some w
  visit_deps recurse slug (dep ∷ deps) w = do
    w' ← visit_dep recurse slug dep w
    visit_deps recurse slug deps w'

  -- The fuel bounds the depth of the recursion; `none` says that it ran out.
  unfoldable pub check_transitive : ℕ → String → Walk → Option Walk
  unfolding visit_deps visit_dep same_category get_or
  check_transitive zero slug w = none
  check_transitive (suc fuel) slug w =
      if has w.visited slug
      then some w
      else visit_deps (check_transitive fuel) slug (get_or graph slug [])
          (record w { visited = slug ∷ w.visited })

  -- Every root starts with an empty `visited`.
  check_roots : ℕ → List String → List Missing → Option (List Missing)
  check_roots fuel [] errors = some errors
  check_roots fuel (slug ∷ slugs) errors = do
    w ← check_transitive fuel slug (record { errors = errors; visited = [] })
    check_roots fuel slugs w.errors

  unfoldable pub missing_dependencies : Option (List Missing)
  unfolding check_roots check_transitive
  missing_dependencies = check_roots (suc (length active)) active []
