-- ===== src/Patterns/Hooks.antt =====
-- `build_ordered_hooks` of engine/patterns/composition.py.
pub mod Ordering
use motoro.Prelude.{
  ℕ, String, Bool, true, false, Option, none, some, List, [], ◌∷◌, ◌++◌, map, Dict, get, select,
  if◌then◌else◌,
}
use motoro.Prelude.Sorting.{sort, le_key}
use motoro.Patterns.Plugin.{
  Category, execution, safety, coordination, knowledge, quality, routing, resolution, HookPoint,
  pre_sense, post_sense, pre_reason, post_reason, pre_plan, post_plan, pre_act, post_act,
  loop_control, on_completion, on_error, eq_point, Callable, Plugin,
}

-- `_CATEGORY_PRIORITY`: the lower number runs first. Every category has one, so the default of 99
-- is never taken.
abbrev pub category_priority : Category → ℕ
category_priority safety = 0
category_priority execution = 1
category_priority knowledge = 2
category_priority quality = 3
category_priority routing = 4
category_priority resolution = 5
category_priority coordination = 6

abbrev pub hook_points : List HookPoint
hook_points =
    pre_sense ∷ post_sense ∷ pre_reason ∷ post_reason ∷ pre_plan ∷ post_plan ∷ pre_act ∷ post_act
    ∷ loop_control ∷ on_completion ∷ on_error ∷ []

-- point in hooks and hooks[point]
abbrev is_filled : Option (List Callable) → Bool
is_filled none = false
is_filled (some []) = false
is_filled (some (_ ∷ _)) = true

unfoldable pub has_hook : HookPoint → Plugin → Bool
unfolding get
has_hook point plugin = is_filled (get plugin.get_hooks point)

-- The inner loop: the slugs of one point.
slugs_at : List Plugin → HookPoint → List String
slugs_at [] point = []
slugs_at (p ∷ ps) point = if has_hook point p then p.slug ∷ slugs_at ps point else slugs_at ps point

-- if slugs: hook_order[point.value] = slugs
entry_for : HookPoint → List String → Dict HookPoint (List String)
entry_for point [] = []
entry_for point (s ∷ ss) = (point, s ∷ ss) ∷ []

order_points : List Plugin → List HookPoint → Dict HookPoint (List String)
unfolding slugs_at entry_for
order_points sorted [] = []
order_points sorted (point ∷ points) =
    entry_for point (slugs_at sorted point) ++ order_points sorted points

unfoldable pub build_ordered_hooks : List Plugin → Dict HookPoint (List String)
unfolding order_points sort has_hook get
build_ordered_hooks plugins =
    order_points (sort (le_key (λ p. category_priority p.category)) plugins) hook_points
