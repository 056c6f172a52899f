-- ===== src/Patterns/Conflicts/Freedom.antt =====
-- No conflict is reported exactly when the rules hold, stated on the plugins themselves.
use motoro.Prelude.{
  ◌≤◌, String, eq_text, false, List, [], ◌∷◌, ◌++◌, map, Dict, get_or, get_or-put, ltb→lt, subst,
  has, length, if◌then◌else◌, ◌≡◌, ◌↔◌, refl, ap, sym, ◌∙◌, All, ◌==◌, arith, ltb, Bool-cases, inl,
  inr,
}
use mathlib.Core.Path.{ap₂}
use mathlib.Core.Bool.{false≢true}
use mathlib.Core.List.{append-nil, append_assoc, cons≢nil}
use motoro.Patterns.Plugin.{Category, eq_category, category_iff, Plugin}
use motoro.Patterns.Conflicts.{
  singleton_categories, add_slug, group_slugs, singleton_errors, conflict_errors, declared_errors,
  detect_conflicts,
}

-- The slugs of the plugins of one category, in the order given.
abbrev pub slugs_in : Category → List Plugin → List String
slugs_in cat [] = []
slugs_in cat (p ∷ ps) = if p.category == cat then p.slug ∷ slugs_in cat ps else slugs_in cat ps

get_or-add_slug :
    (by : Dict Category (List String)) (p : Plugin) (cat : Category)
    → get_or (add_slug by p) cat []
      ≡ get_or by cat [] ++ (if p.category == cat then p.slug ∷ [] else [])
unfolding add_slug
get_or-add_slug by p cat = elim (Bool-cases (p.category == cat)) [
  | inl e ↦ rw (get_or-put, e) (rw ((category_iff p.category cat).0 e) refl)
  | inr e ↦ rw (get_or-put, e) (sym (append-nil _))
]

get_or-group_slugs :
    (by : Dict Category (List String)) (ps : List Plugin) (cat : Category)
    → get_or (group_slugs by ps) cat [] ≡ get_or by cat [] ++ slugs_in cat ps
unfolding group_slugs
get_or-group_slugs by [] cat = sym (append-nil _)
get_or-group_slugs by (p ∷ ps) cat =
    get_or-group_slugs (add_slug by p) ps cat
    ∙ rw (get_or-add_slug by p cat) (elim (Bool-cases (p.category == cat)) [
      | inl e ↦ rw (e, append_assoc) refl
      | inr e ↦ rw (e, append-nil) refl
    ])

-- At most one active plugin in a category.
abbrev pub AtMostOne : List Plugin → Category → Type 0
AtMostOne ps cat = length (slugs_in cat ps) ≤ 1

-- No plugin names an active slug among those that it conflicts with.
abbrev pub Tolerates : List String → Plugin → Type 0
Tolerates active p = All (λ c. has active c ≡ false) p.conflicts_with

append-eq-nil {ℓ} : {A : Type ℓ} (xs ys : List A) → (xs ++ ys ≡ []) ↔ ((xs ≡ []) × (ys ≡ []))
append-eq-nil [] ys = (λ h. (refl, h), λ h. h.1)
append-eq-nil (x ∷ xs) ys = (λ h. absurd (cons≢nil h), λ h. absurd (cons≢nil h.0))

singleton_errors_iff :
    (by : Dict Category (List String)) (cats : List Category)
    → (singleton_errors by cats ≡ []) ↔ All (λ cat. length (get_or by cat []) ≤ 1) cats
unfolding singleton_errors
singleton_errors_iff by [] = (λ h. tt, λ h. refl)
singleton_errors_iff by (cat ∷ cats) =
    let slugs = get_or by cat [] in
    let rest = singleton_errors_iff by cats in
    elim (Bool-cases (ltb 1 (length slugs))) [
      | inl e ↦ (rw e (λ h. absurd (cons≢nil h)), λ h. absurd (omega (arith, ltb→lt _ _ e, h.0)))
      | inr e ↦ (rw e (λ h. (ground arith, rest.0 h)), rw e (λ h. rest.1 h.1))
    ]

conflict_errors_iff :
    (slug : String) (active cs : List String)
    → (conflict_errors slug active cs ≡ []) ↔ All (λ c. has active c ≡ false) cs
unfolding conflict_errors
conflict_errors_iff slug active [] = (λ h. tt, λ h. refl)
conflict_errors_iff slug active (c ∷ cs) =
    let rest = conflict_errors_iff slug active cs in
    elim (Bool-cases (has active c)) [
      | inl e ↦ (rw e (λ h. absurd (cons≢nil h)), λ h. absurd (false≢true (sym h.0 ∙ e)))
      | inr e ↦ (rw e (λ h. (refl, rest.0 h)), rw e (λ h. rest.1 h.1))
    ]

declared_errors_iff :
    (active : List String) (ps : List Plugin)
    → (declared_errors active ps ≡ []) ↔ All (Tolerates active) ps
unfolding declared_errors
declared_errors_iff active [] = (λ h. tt, λ h. refl)
declared_errors_iff active (p ∷ ps) =
    let here = conflict_errors_iff p.slug active p.conflicts_with in
    let rest = declared_errors_iff active ps in
    let both =
      append-eq-nil (conflict_errors p.slug active p.conflicts_with) (declared_errors active ps) in
    (λ h. (here.0 (both.0 h).0, rest.0 (both.0 h).1), λ h. both.1 (here.1 h.0, rest.1 h.1))

All-counts :
    (ps : List Plugin) (cats : List Category)
    → All (λ cat. length (get_or (group_slugs [] ps) cat []) ≤ 1) cats ≡ All (AtMostOne ps) cats
unfolding get_or
All-counts ps [] = refl
All-counts ps (cat ∷ cats) =
    ap₂ (λ (A B : Type 0). A × B) (ap (λ slugs. length slugs ≤ 1) (get_or-group_slugs [] ps cat))
      (All-counts ps cats)

-- Nothing is reported exactly when each singleton category has at most one plugin and no plugin
-- names an active slug among its conflicts.
pub detect_conflicts-nil_iff :
    (ps : List Plugin)
    → (detect_conflicts ps ≡ [])
      ↔ (All (AtMostOne ps) singleton_categories × All (Tolerates (map (λ p. p.slug) ps)) ps)
unfolding detect_conflicts
detect_conflicts-nil_iff ps =
    let active = map (λ p. p.slug) ps in
    let single = singleton_errors_iff (group_slugs [] ps) singleton_categories in
    let counts = All-counts ps singleton_categories in
    let declared = declared_errors_iff active ps in
    let both =
      append-eq-nil (singleton_errors (group_slugs [] ps) singleton_categories)
        (declared_errors active ps) in
    (
      λ h. (subst (λ A. A) counts (single.0 (both.0 h).0), declared.0 (both.0 h).1),
      λ h. both.1 (single.1 (subst (λ A. A) (sym counts) h.0), declared.1 h.1),
    )
