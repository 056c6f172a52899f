-- ===== src/Patterns/Hooks/Ordering.antt =====
-- Which slugs stand at a point, and in which order.
use mathlib.Core.Path.{ap₂}
use mathlib.Core.List.{append-nil, append_assoc}
use motoro.Prelude.{
  ℕ, ◌<◌, String, Bool, true, false, none, some, Option, List, [], ◌∷◌, ◌++◌, Dict, get, get_or,
  has, ltb, length, map, ◌&&◌, ap, select, All, if◌then◌else◌, ◌==◌, eq_number, ◌≡◌, refl, ◌∙◌,
  arith, Bool-cases, inl, inr,
}
use motoro.Prelude.Sorting.{sort, le_key, sort-eq-buckets}
use motoro.Patterns.Plugin.{
  Category, execution, safety, coordination, knowledge, quality, routing, resolution, eq_category,
  HookPoint, pre_sense, eq_point, point_iff, Callable, Plugin,
}
use motoro.Patterns.Hooks.{
  category_priority, hook_points, has_hook, is_filled, slugs_at, entry_for, order_points,
  build_ordered_hooks,
}

-- The slugs of the plugins of one priority with a hook at the point, in the order given.
abbrev slugs_of_priority : HookPoint → List Plugin → ℕ → List String
slugs_of_priority point [] k = []
slugs_of_priority point (p ∷ ps) k =
    if category_priority p.category == k
    then (if has_hook point p
        then p.slug ∷ slugs_of_priority point ps k
        else slugs_of_priority point ps k)
    else slugs_of_priority point ps k

-- The plugin gives at least one function for the point.
abbrev pub gives_hook : HookPoint → Plugin → Bool
gives_hook point p = ltb 0 (length (get_or p.get_hooks point []))

-- The slugs of the plugins of one category that give a function, in the order given.
abbrev pub slugs_of : HookPoint → List Plugin → Category → List String
slugs_of point ps c = map (λ p. p.slug) (select (λ p. p.category == c && gives_hook point p) ps)

-- Safety first, coordination last.
abbrev pub in_order : HookPoint → List Plugin → List String
in_order point ps =
    slugs_of point ps safety
    ++ slugs_of point ps execution
    ++ slugs_of point ps knowledge
    ++ slugs_of point ps quality
    ++ slugs_of point ps routing
    ++ slugs_of point ps resolution
    ++ slugs_of point ps coordination

abbrev by_priority : HookPoint → List Plugin → List String
by_priority point ps =
    slugs_of_priority point ps 0
    ++ slugs_of_priority point ps 1
    ++ slugs_of_priority point ps 2
    ++ slugs_of_priority point ps 3
    ++ slugs_of_priority point ps 4
    ++ slugs_of_priority point ps 5
    ++ slugs_of_priority point ps 6

same_priority : (d c : Category) → (category_priority d == category_priority c) ≡ (d == c)
same_priority safety execution = refl
same_priority safety _ = refl
same_priority execution execution = refl
same_priority execution _ = refl
same_priority knowledge execution = refl
same_priority knowledge _ = refl
same_priority quality execution = refl
same_priority quality _ = refl
same_priority routing execution = refl
same_priority routing _ = refl
same_priority resolution execution = refl
same_priority resolution _ = refl
same_priority coordination execution = refl
same_priority coordination _ = refl

has_hook-gives_hook : (point : HookPoint) (p : Plugin) → has_hook point p ≡ gives_hook point p
unfolding has_hook get get_or
has_hook-gives_hook point p = gives p.get_hooks
  where
    gives :
        (hooks : Dict HookPoint (List Callable))
        → is_filled (get hooks point) ≡ ltb 0 (length (get_or hooks point []))
    gives [] = refl
    gives ((q, []) ∷ hooks) = elim (Bool-cases (q == point)) [
      | inl e ↦ rw e refl
      | inr e ↦ rw e (gives hooks)
    ]
    gives ((q, cb ∷ cbs) ∷ hooks) = elim (Bool-cases (q == point)) [
      | inl e ↦ rw e (ground arith)
      | inr e ↦ rw e (gives hooks)
    ]

slugs_of_priority-category :
    (point : HookPoint) (ps : List Plugin) (c : Category)
    → slugs_of_priority point ps (category_priority c) ≡ slugs_of point ps c
slugs_of_priority-category point [] c = refl
slugs_of_priority-category point (p ∷ ps) c =
    rw (same_priority p.category c, has_hook-gives_hook point p)
      (elim (Bool-cases (p.category == c)) [
        | inr e ↦ rw e (slugs_of_priority-category point ps c)
        | inl e ↦ elim (Bool-cases (gives_hook point p)) [
          | inl g ↦ rw (e, g) (ap (λ t. p.slug ∷ t) (slugs_of_priority-category point ps c))
          | inr g ↦ rw (e, g) (slugs_of_priority-category point ps c)
        ]
      ])

both : {x y z w : List String} → x ≡ y → z ≡ w → x ++ z ≡ y ++ w
both p q = ap₂ (λ a b. a ++ b) p q

by_priority-in_order :
    (point : HookPoint) (ps : List Plugin) → by_priority point ps ≡ in_order point ps
by_priority-in_order point ps =
    let same = slugs_of_priority-category point ps in
    both
      (both
        (both (both (both (both (same safety) (same execution)) (same knowledge)) (same quality))
          (same routing))
        (same resolution))
      (same coordination)

slugs_at-append :
    (point : HookPoint) (ps qs : List Plugin)
    → slugs_at (ps ++ qs) point ≡ slugs_at ps point ++ slugs_at qs point
unfolding slugs_at
slugs_at-append point [] qs = refl
slugs_at-append point (p ∷ ps) qs = ground (arith, slugs_at-append point ps qs)

slugs_at-select :
    (point : HookPoint) (ps : List Plugin) (k : ℕ)
    → slugs_at (select (λ p. category_priority p.category == k) ps) point
      ≡ slugs_of_priority point ps k
unfolding slugs_at
slugs_at-select point [] k = refl
slugs_at-select point (p ∷ ps) k = ground (arith, slugs_at-select point ps k)

priority-lt : (ps : List Plugin) → All (λ p. category_priority p.category < 7) ps
priority-lt [] = tt
priority-lt (p ∷ ps) = (bound p.category, priority-lt ps)
  where
    bound : (c : Category) → category_priority c < 7
    bound execution = omega arith
    bound _ = omega arith

slugs_at-sort :
    (point : HookPoint) (ps : List Plugin)
    → slugs_at (sort (le_key (λ p. category_priority p.category)) ps) point ≡ by_priority point ps
unfolding slugs_at
slugs_at-sort point ps =
    rw (sort-eq-buckets (λ p. category_priority p.category) 7 ps (priority-lt ps))
      (simp (slugs_at-append, slugs_at-select, append_assoc, append-nil))

-- A point with no slug has no entry.
abbrev pub listed : List String → Option (List String)
listed [] = none
listed (s ∷ ss) = some (s ∷ ss)

-- What a lookup finds behind an entry that may be missing.
entry_or : Option (List String) → Bool → Option (List String) → Option (List String)
entry_or none hit rest = rest
entry_or (some found) hit rest = if hit then some found else rest

entry_or_miss : (o rest : Option (List String)) → entry_or o false rest ≡ rest
unfolding entry_or
entry_or_miss none rest = refl
entry_or_miss (some found) rest = refl

entry_or_hit :
    (slugs : List String) (b : Bool)
    → entry_or (listed slugs) true (if b then listed slugs else none) ≡ listed slugs
unfolding entry_or
entry_or_hit [] true = refl
entry_or_hit [] false = refl
entry_or_hit (s ∷ ss) b = refl

get-entry_for :
    (q point : HookPoint) (slugs : List String) (rest : Dict HookPoint (List String))
    → get (entry_for q slugs ++ rest) point ≡ entry_or (listed slugs) (q == point) (get rest point)
unfolding entry_for get entry_or
get-entry_for q point [] rest = refl
get-entry_for q point (s ∷ ss) rest = refl

get-order_points :
    (sorted : List Plugin) (points : List HookPoint) (point : HookPoint)
    → get (order_points sorted points) point
      ≡ (if has points point then listed (slugs_at sorted point) else none)
unfolding order_points get
get-order_points sorted [] point = refl
get-order_points sorted (q ∷ points) point =
    get-entry_for q point (slugs_at sorted q) (order_points sorted points)
    ∙ rw (get-order_points sorted points point) (elim (Bool-cases (q == point)) [
      | inl e ↦ rw (e, (point_iff q point).0 e) (entry_or_hit _ _)
      | inr e ↦ rw e (entry_or_miss _ _)
    ])

has-hook_points : (point : HookPoint) → has hook_points point ≡ true
has-hook_points pre_sense = refl
has-hook_points _ = refl

-- At each point stand the slugs of exactly the plugins that give at least one function for it,
-- those of the category safety first, then execution, knowledge, quality, routing, resolution and
-- coordination, and in one category in the order given; a point for which no plugin gives a
-- function is left out.
pub get-build_ordered_hooks :
    (ps : List Plugin) (point : HookPoint)
    → get (build_ordered_hooks ps) point ≡ listed (in_order point ps)
unfolding build_ordered_hooks
get-build_ordered_hooks ps point =
    get-order_points (sort (le_key (λ p. category_priority p.category)) ps) hook_points point
    ∙ rw (has-hook_points point, slugs_at-sort point ps, by_priority-in_order point ps)
