-- ===== src/Patterns/Resolution/Filling.antt =====
-- Which patterns may be added to a configuration.
use mathlib.Core.Bool.{false≢true}
use mathlib.Core.List.{append-nil, append_assoc}
use motoro.Prelude.{
  String, eq_text, true, false, Option, none, some, List, [], ◌∷◌, ◌++◌, Dict, get, get_or, has,
  any, Bool-cases, Option-cases, inl, inr, ◌≡◌, ◌≢◌, sym, ap, subst, arith, All,
}
use motoro.Patterns.Resolution.{in_category, fills_slot}

-- An active slug has a dependency that is not active.
abbrev pub IsUnresolved : List String → Dict String (List String) → String × String → Type 0
IsUnresolved active graph (slug, dep) =
    (has active slug ≡ true) × (has (get_or graph slug []) dep ≡ true) × (has active dep ≡ false)

-- A pattern may be added to these slugs: its category is known, is one of the three that are
-- resolved on their own, and is the known category of none of them.
abbrev pub CanFill : Dict String String → List String → String → Type 0
CanFill category_map taken dep =
    (c : String) × ((get category_map dep ≡ some c)
      × (has ("execution" ∷ "routing" ∷ "coordination" ∷ []) c ≡ true)
      × All (λ s. get category_map s ≢ some c) taken)

-- Each of the added slugs is a dependency of an active slug, is not there before it, and may be
-- added to what is there before it.
abbrev pub Fills :
    List String
    → Dict String (List String)
    → Dict String String
    → List String
    → List String
    → Type 0
Fills active graph category_map taken [] = Unit
Fills active graph category_map taken (dep ∷ added) =
    ((slug : String) × IsUnresolved active graph (slug, dep))
    × (has taken dep ≡ false)
    × CanFill category_map taken dep
    × Fills active graph category_map (taken ++ dep ∷ []) added

-- What is refused is not active, and may not be added.
abbrev pub Lacks :
    List String
    → Dict String (List String)
    → Dict String String
    → List String
    → String × String
    → Type 0
Lacks active graph category_map taken u =
    IsUnresolved active graph u × (¬ CanFill category_map taken u.1)

not_in_category : (o : Option String) (c : String) → in_category c o ≡ false → o ≢ some c
unfolding in_category
not_in_category none c h e = ground (arith, e)
not_in_category (some d) c h e = ground (arith, h, e, eq_text.equal_iff d c)

in_category-some : (o : Option String) (c : String) → in_category c o ≡ true → o ≡ some c
unfolding in_category
in_category-some none c h = ground (arith, h)
in_category-some (some d) c h = ap some ((eq_text.equal_iff d c).0 h)

none-in_category :
    (category_map : Dict String String) (c : String) (taken : List String)
    → any (λ s. in_category c (get category_map s)) taken ≡ false
    → All (λ s. get category_map s ≢ some c) taken
none-in_category category_map c [] h = tt
none-in_category category_map c (s ∷ taken) h = (
  not_in_category (get category_map s) c (ground (arith, h)),
  none-in_category category_map c taken (ground (arith, h)),
)

some-in_category :
    (category_map : Dict String String) (c : String) (taken : List String)
    → any (λ s. in_category c (get category_map s)) taken ≡ true
    → ¬ All (λ s. get category_map s ≢ some c) taken
some-in_category category_map c [] h free = ground (arith, h)
some-in_category category_map c (s ∷ taken) h free =
    elim (Bool-cases (in_category c (get category_map s))) [
      | inl e ↦ free.0 (in_category-some (get category_map s) c e)
      | inr e ↦ some-in_category category_map c taken (ground (arith, e, h)) free.1
    ]

pub fills_slot-CanFill :
    (category_map : Dict String String) (taken : List String) (dep : String)
    → fills_slot category_map taken (get category_map dep) ≡ true
    → CanFill category_map taken dep
unfolding fills_slot
fills_slot-CanFill category_map taken dep h = elim (Option-cases (get category_map dep)) [
  | inl e ↦ absurd (false≢true (subst (λ o. fills_slot category_map taken o ≡ true) e h))
  | inr (c, e) ↦
      let h' : fills_slot category_map taken (some c) ≡ true =
        subst (λ o. fills_slot category_map taken o ≡ true) e h in
      (c, (e, ground (arith, h'), none-in_category category_map c taken (ground (arith, h'))))
]

pub fills_slot-not :
    (category_map : Dict String String) (taken : List String) (dep : String)
    → fills_slot category_map taken (get category_map dep) ≡ false
    → ¬ CanFill category_map taken dep
unfolding fills_slot
fills_slot-not category_map taken dep h (c, (e, one, free)) =
    let h' : fills_slot category_map taken (some c) ≡ false =
      subst (λ o. fills_slot category_map taken o ≡ false) e h in
    some-in_category category_map c taken (ground (arith, h', one)) free

All-front :
    {A : Type 0} (P : A → Type 0) (front back : List A) → All P (front ++ back) → All P front
All-front P [] back h = tt
All-front P (x ∷ front) back h = (h.0, All-front P front back h.1)

-- What may not be added may not be added to more.
CanFill-front :
    (category_map : Dict String String) (taken more : List String) (dep : String)
    → CanFill category_map (taken ++ more) dep
    → CanFill category_map taken dep
CanFill-front category_map taken more dep (c, (e, one, free)) =
    (c, (e, one, All-front (λ s. get category_map s ≢ some c) taken more free))

pub All-Lacks :
    (active : List String) (graph : Dict String (List String)) (category_map : Dict String String)
    (taken more : List String) (us : List (String × String))
    → All (Lacks active graph category_map taken) us
    → All (Lacks active graph category_map (taken ++ more)) us
All-Lacks active graph category_map taken more [] h = tt
All-Lacks active graph category_map taken more (u ∷ us) h = (
  (h.0.0, λ fill. h.0.1 (CanFill-front category_map taken more u.1 fill)),
  All-Lacks active graph category_map taken more us h.1,
)

pub Fills-append :
    (active : List String) (graph : Dict String (List String)) (category_map : Dict String String)
    (taken front back : List String)
    → Fills active graph category_map taken front
    → Fills active graph category_map (taken ++ front) back
    → Fills active graph category_map taken (front ++ back)
Fills-append active graph category_map taken [] back f b =
    subst (λ t. Fills active graph category_map t back) (append-nil taken) b
Fills-append active graph category_map taken (d ∷ front) back (g, n, c, f) b = (
  g,
  n,
  c,
  Fills-append active graph category_map (taken ++ d ∷ []) front back f (
      subst (λ t. Fills active graph category_map t back) (sym (append_assoc taken (d ∷ []) front))
        b),
)
