-- ===== src/Patterns/Cycle.antt =====
-- `_detect_cycle` of engine/patterns/composition.py: a depth-first search with three colours.
pub mod Walks
pub mod Colours
pub mod Invariant
pub mod Totality
pub mod Topological
pub mod Acyclic
use mathlib.Core.List.{reverse}
use motoro.Prelude.{
  ℕ, zero, suc, String, eq_text, ◌==◌, Option, none, some, List, [], ◌∷◌, ◌++◌, Dict, get, get_or,
  put, length, if◌then◌else◌,
}
use motoro.Patterns.Dependencies.{◌>>=◌}

pub data Colour : Type 0 where
  white grey black : Colour

-- The dicts `colour` and `parent`.
pub record Search : Type 0 where
  pub colour : Dict String Colour
  pub parent : Dict String (Option String)

-- {s: white for s in slugs} and {s: None for s in slugs}
unfoldable pub init_colour : List String → Dict String Colour → Dict String Colour
init_colour [] d = d
init_colour (s ∷ ss) d = init_colour ss (put d s white)

unfoldable pub init_parent : List String → Dict String (Option String) → Dict String (Option String)
init_parent [] d = d
init_parent (s ∷ ss) d = init_parent ss (put d s none)

unfoldable pub paint : String → Colour → Search → Search
paint node c st = record st { colour = put st.colour node c }

unfoldable pub adopt : String → String → Search → Search
adopt dep node st = record st { parent = put st.parent dep (some node) }

-- while p is not None and p != dep: the fuel bounds the steps; every slug is a key of parent.
unfoldable pub climb :
    ℕ → Dict String (Option String) → Option String → String → List String → Option (List String)
unfolding get_or
climb zero parent p dep cycle = none
climb (suc fuel) parent none dep cycle = some cycle
climb (suc fuel) parent (some p) dep cycle =
    let rest = climb fuel parent (get_or parent p none) dep (cycle ++ p ∷ []) in
    if p == dep then some cycle else rest

-- The path that is reported for the edge from node back to dep.
unfoldable pub reconstruct :
    ℕ → Dict String (Option String) → String → String → Option (List String)
unfolding climb
reconstruct fuel parent node dep = do
  cycle ← climb fuel parent (get_or parent node none) dep (dep ∷ node ∷ [])
  some (reverse (cycle ++ dep ∷ []))

-- What the search returns beside its state: a cycle, or None.
abbrev pub Found : Type 0
Found = Search × Option (List String)

report : Search → Option (List String) → Option Found
report st none = none
report st (some cycle) = some (st, some cycle)

module _ (limit : ℕ) (graph : Dict String (List String)) where
  -- One dependency of a node; `recurse` is the call of `_dfs`.
  visit_edge :
      (String → Search → Option Found) → String → String → Option Colour → Search → Option Found
  unfolding report reconstruct adopt
  visit_edge recurse node dep none st = some (st, none)
  visit_edge recurse node dep (some grey) st = report st (reconstruct limit st.parent node dep)
  visit_edge recurse node dep (some white) st = recurse dep (adopt dep node st)
  visit_edge recurse node dep (some black) st = some (st, none)

  proceed : (Search → Option Found) → Found → Option Found
  proceed k (st, some cycle) = some (st, some cycle)
  proceed k (st, none) = k st

  visit_edges : (String → Search → Option Found) → String → List String → Search → Option Found
  unfolding visit_edge proceed
  visit_edges recurse node [] st = some (st, none)
  visit_edges recurse node (dep ∷ deps) st = do
    found ← visit_edge recurse node dep (get st.colour dep) st
    proceed (visit_edges recurse node deps) found

  blacken : String → Search → Option Found
  unfolding paint
  blacken node st = some (paint node black st, none)

  -- The fuel bounds the depth of the recursion.
  unfoldable pub dfs : ℕ → String → Search → Option Found
  unfolding visit_edges blacken paint get_or get
  dfs zero node st = none
  dfs (suc fuel) node st = do
    found ← visit_edges (dfs fuel) node (get_or graph node []) (paint node grey st)
    proceed (blacken node) found

  pub start_at : (Search → Option Found) → Option Colour → Search → Option Found
  start_at go (some white) st = go st
  start_at go _ st = some (st, none)

  search_all : ℕ → List String → Search → Option Found
  unfolding start_at
  search_all fuel [] st = some (st, none)
  search_all fuel (s ∷ ss) st = do
    found ← start_at (dfs fuel s) (get st.colour s) st
    proceed (search_all fuel ss) found

verdict : Option Found → Option (Option (List String))
verdict none = none
verdict (some (st, r)) = some r

-- `none` says that fuel ran out, `some none` is None.
unfoldable pub detect_cycle :
    List String → Dict String (List String) → Option (Option (List String))
unfolding verdict search_all dfs init_colour init_parent put
detect_cycle slugs graph = verdict (
    search_all (suc (length slugs)) graph (suc (length slugs)) slugs
      (record { colour = init_colour slugs []; parent = init_parent slugs [] }))
