-- ===== src/Patterns/Examples.antt =====
-- Plugins and graphs on which the composition rules are run.
use motoro.Prelude.{
  if◌then◌else◌, none, has, ◌==◌, Bool-cases, inl, inr, subst, Option, get_or, eq_text, String,
  false, List, [], ◌∷◌, some, ◌≡◌, refl, ◌↔◌, All, Dict, get, map, In,
}
use motoro.Patterns.Plugin.{
  eq_point, Category, execution, safety, quality, HookPoint, pre_plan, post_act, Callable, Plugin,
}
use motoro.Patterns.Conflicts.{singleton_categories, detect_conflicts}
use motoro.Patterns.Conflicts.Freedom.{AtMostOne, Tolerates, detect_conflicts-nil_iff}
use motoro.Patterns.Hooks.{build_ordered_hooks}
use motoro.Patterns.Hooks.Ordering.{listed, in_order, get-build_ordered_hooks}
use motoro.Patterns.Cycle.{detect_cycle}
use motoro.Patterns.Cycle.Walks.{ClosedWalk}
use motoro.Patterns.Cycle.Invariant.{NoSelf}
use motoro.Patterns.Cycle.Totality.{detect_cycle_total, detect_cycle-ClosedWalk}
use motoro.Patterns.Resolution.{Registry, active_slugs, lacking_slugs, resolve_slugs}
use motoro.Patterns.Cycle.Acyclic.{detect_cycle-none}
use motoro.Patterns.Composition.{unknown, missing, validate_composition}
use motoro.Patterns.Dependencies.{Missing, missing_dependencies}
use motoro.Patterns.Dependencies.Exactness.{IsMissing, missing_dependencies_exact}

abbrev plain : String → Category → Dict HookPoint (List Callable) → Plugin
plain slug category hooks = record {
  slug = slug;
  category = category;
  dependencies = [];
  requires_multi_agent = false;
  conflicts_with = "solo" ∷ [];
  consumes_skills = false;
  get_hooks = hooks;
}

abbrev critic : Plugin
critic = plain "critic" quality ((pre_plan, 1 ∷ []) ∷ (post_act, []) ∷ [])

abbrev reason_act : Plugin
reason_act = plain "reason_act" execution ((pre_plan, 2 ∷ 3 ∷ []) ∷ [])

abbrev guard : Plugin
guard = plain "guard" safety ((pre_plan, 4 ∷ []) ∷ [])

abbrev team : List Plugin
team = critic ∷ reason_act ∷ guard ∷ []

pre_plan_order :
    get (build_ordered_hooks team) pre_plan ≡ some ("guard" ∷ "reason_act" ∷ "critic" ∷ [])
unfolding build_ordered_hooks get
pre_plan_order = refl

get-build_ordered_hooks_example :
    get (build_ordered_hooks team) pre_plan ≡ listed (in_order pre_plan team)
get-build_ordered_hooks_example = get-build_ordered_hooks team pre_plan

detect_conflicts-nil_iff_example :
    (detect_conflicts team ≡ [])
    ↔ (All (AtMostOne team) singleton_categories × All (Tolerates (map (λ p. p.slug) team)) team)
detect_conflicts-nil_iff_example = detect_conflicts-nil_iff team

abbrev graph : Dict String (List String)
graph = ("a", "b" ∷ "c" ∷ []) ∷ ("b", "a" ∷ "d" ∷ []) ∷ []

abbrev categories : Dict String String
categories = ("a", "execution") ∷ ("c", "execution") ∷ []

missing_run :
    missing_dependencies ("a" ∷ "b" ∷ []) graph categories
    ≡ some (record { slug = "b"; dep = "d" } ∷ record { slug = "b"; dep = "d" } ∷ [])
unfolding missing_dependencies
missing_run = refl

missing_dependencies_exact_example :
    (errors : List Missing) × (missing_dependencies ("a" ∷ "b" ∷ []) graph categories ≡ some errors)
    × ((m : Missing) → In m errors ↔ IsMissing ("a" ∷ "b" ∷ []) graph categories m)
missing_dependencies_exact_example = missing_dependencies_exact ("a" ∷ "b" ∷ []) graph categories

-- A cycle below the first node.
abbrev below_root : Dict String (List String)
below_root = ("a", "b" ∷ []) ∷ ("b", "c" ∷ []) ∷ ("c", "b" ∷ []) ∷ []

cycle_of_two : detect_cycle ("a" ∷ "b" ∷ "c" ∷ []) below_root ≡ some (some ("b" ∷ "c" ∷ "b" ∷ []))
unfolding detect_cycle
cycle_of_two = refl

abbrev selfish : Dict String (List String)
selfish = ("root", "a" ∷ []) ∷ ("a", "a" ∷ []) ∷ []

-- For a self-dependency below a root the report climbs past it, to the root.
climbs_past : detect_cycle ("root" ∷ "a" ∷ []) selfish ≡ some (some ("a" ∷ "root" ∷ "a" ∷ "a" ∷ []))
unfolding detect_cycle
climbs_past = refl

detect_cycle_total_example :
    (v : Option (List String)) × (detect_cycle ("root" ∷ "a" ∷ []) selfish ≡ some v)
detect_cycle_total_example = detect_cycle_total ("root" ∷ "a" ∷ []) selfish

entries-NoSelf : (g : Dict String (List String)) → All (λ e. has e.1 e.0 ≡ false) g → NoSelf g
unfolding get_or
entries-NoSelf [] h k = refl
entries-NoSelf ((j, deps) ∷ g) h k = elim (Bool-cases (j == k)) [
  | inl b ↦ rw b (subst (λ z. has deps z ≡ false) ((eq_text.equal_iff j k).0 b) h.0)
  | inr b ↦ rw b (entries-NoSelf g h.1 k)
]

detect_cycle-ClosedWalk_example : ClosedWalk below_root ("b" ∷ "c" ∷ "b" ∷ [])
detect_cycle-ClosedWalk_example =
    detect_cycle-ClosedWalk ("a" ∷ "b" ∷ "c" ∷ []) below_root ("b" ∷ "c" ∷ "b" ∷ [])
      (entries-NoSelf below_root (refl, (refl, (refl, tt)))) cycle_of_two

abbrev ladder : Dict String (List String)
ladder = ("a", "b" ∷ "c" ∷ []) ∷ ("b", "c" ∷ "x" ∷ []) ∷ []

no_cycle : detect_cycle ("b" ∷ "a" ∷ "c" ∷ []) ladder ≡ some none
unfolding detect_cycle
no_cycle = refl

detect_cycle-none_example : ¬ ClosedWalk ladder ("a" ∷ "b" ∷ "a" ∷ [])
detect_cycle-none_example =
    detect_cycle-none ("b" ∷ "a" ∷ "c" ∷ []) ladder ("a" ∷ "b" ∷ "a" ∷ []) no_cycle
      (refl, (refl, (refl, tt)))

-- A pattern with a dependency that fills an empty slot, and that has a dependency of its own.
abbrev registry : Registry
registry =
    ("team", record { dependencies = "router" ∷ []; category = "quality" })
    ∷ ("router", record { dependencies = "guard" ∷ []; category = "routing" })
    ∷ ("guard", record { dependencies = []; category = "safety" })
    ∷ []

-- The dependency of the pattern that is added is not looked at.
added_router : resolve_slugs registry ("team" ∷ []) ≡ some (active_slugs ("team" ∷ "router" ∷ []))
unfolding resolve_slugs
added_router = refl

refused_guard :
    resolve_slugs registry ("router" ∷ []) ≡ some (lacking_slugs (("router", "guard") ∷ []))
unfolding resolve_slugs
refused_guard = refl

abbrev known_plugin : String → Option Plugin
known_plugin slug = if slug == "guard" then some guard else none

-- "team" has a dependency that is not active, and "ghost" is unknown.
bad_errors :
    validate_composition registry known_plugin ("team" ∷ "ghost" ∷ "guard" ∷ "guard" ∷ [])
    ≡ some (record {
      valid = false;
      errors = unknown "ghost" ∷ missing (record { slug = "team"; dep = "router" }) ∷ [];
      warnings = [];
      resolved_hooks = [];
    })
unfolding validate_composition
bad_errors = refl
