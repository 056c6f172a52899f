-- ===== src/RunConfig/Fields.antt =====
-- Where each setting of a run comes from.
use motoro.Prelude.{
  String, eq_text, Bool, true, false, ◌==◌, Option, none, some, [], ◌∷◌, Dict, ◌∙◌, get, get_or,
  put, get-put, Bool-cases, Option-cases, ◌⊎◌, inl, inr, ap, subst, sym, eq_iff, if◌then◌else◌, ◌≡◌,
  ◌≢◌, refl, arith,
}
use motoro.RunConfig.{
  Setting, null, object, plain, Rows, agent_fields, pinned_or_own, collect, merge, pattern_setting,
  or_empty, mapping, model_setting, finish, effective_agent_config,
}

module _ {V : Type 0} where
  -- The setting of the run before overrides: the one that the snapshot pins, null included, or the
  -- agent's own, where the snapshot has not the key.
  abbrev pub IsBase : Rows V → String → String → Setting V → Type 0
  IsBase run key attr v =
      (get run.config_snapshot key ≡ some v)
      ⊎ ((get run.config_snapshot key ≡ none) × (v ≡ run.agent attr))

  -- A pattern that the snapshot pins is not overridden, nor is one where overrides do not apply or
  -- where there are none.
  abbrev pub IsPattern : Rows V → Bool → Setting V → Type 0
  IsPattern run apply p =
      (get run.config_snapshot "pattern_config" ≡ some p)
      ⊎ ((get run.config_snapshot "pattern_config" ≡ none)
          × (((apply ≡ true) × (run.pattern_overrides ≢ []) × (p ≡ object run.pattern_overrides))
              ⊎ (((apply ≡ false) ⊎ (run.pattern_overrides ≡ []))
                  × (p ≡ run.agent "pattern_config"))))

  -- The value of a key under overrides: the last one that they give it, or the one before.
  abbrev pub overridden : Dict String V → String → Option V → Option V
  overridden [] key o = o
  overridden ((k, v) ∷ overrides) key o = overridden overrides key (if k == key then some v else o)

  get-merge :
      (overrides d : Dict String V) (key : String)
      → get (merge d overrides) key ≡ overridden overrides key (get d key)
  unfolding merge
  get-merge [] d key = refl
  get-merge ((k, v) ∷ overrides) d key =
      get-merge overrides (put d k v) key ∙ ap (overridden overrides key) (get-put d k key v)

  base : Rows V → String → String → Setting V
  base run key attr = pinned_or_own (get run.config_snapshot key) (run.agent attr)

  pinned_or_own-IsBase :
      (run : Rows V) (key attr : String) → IsBase run key attr (base run key attr)
  unfolding pinned_or_own base
  pinned_or_own-IsBase run key attr = elim (Option-cases (get run.config_snapshot key)) [
    | inl e ↦ inr (e, rw e refl)
    | inr (v, e) ↦ inl (rw e refl)
  ]

  pattern_of : Rows V → Bool → Setting V
  pattern_of run apply =
      pattern_setting apply (get run.config_snapshot "pattern_config") run.pattern_overrides
        (base run "pattern_config" "pattern_config")

  overriding :
      (apply : Bool) (overrides : Dict String V) (own : Setting V)
      → let p = pattern_setting apply none overrides own in
        ((apply ≡ true) × (overrides ≢ []) × (p ≡ object overrides))
        ⊎ (((apply ≡ false) ⊎ (overrides ≡ [])) × (p ≡ own))
  unfolding pattern_setting
  overriding true [] own = inr (inr refl, refl)
  overriding true (o ∷ os) own = inl (refl, λ e. ground (arith, e), refl)
  overriding false overrides own = inr (inl refl, refl)

  pinned_pattern :
      (apply : Bool) (p own : Setting V) (overrides : Dict String V)
      → pattern_setting apply (some p) overrides own ≡ own
  unfolding pattern_setting
  pinned_pattern true p own overrides = refl
  pinned_pattern false p own overrides = refl

  pattern_of-IsPattern : (run : Rows V) (apply : Bool) → IsPattern run apply (pattern_of run apply)
  unfolding pattern_of base pinned_or_own
  pattern_of-IsPattern run apply = elim (Option-cases (get run.config_snapshot "pattern_config")) [
    | inl e ↦ inr (e, rw e (overriding apply run.pattern_overrides (run.agent "pattern_config")))
    | inr (p, e) ↦ inl (e ∙ rw e (ap some (sym (pinned_pattern apply p p run.pattern_overrides))))
  ]

  get-collect :
      (run : Rows V) (fields : Dict String String) (key attr : String)
      → get fields key ≡ some attr
      → get (collect run.config_snapshot run.agent fields) key ≡ some (base run key attr)
  unfolding get collect base
  get-collect run [] key attr h = ground (arith, h)
  get-collect run ((k, a) ∷ fields) key attr h = elim (Bool-cases (k == key)) [
    | inl e ↦ ground (arith, e, h, ap (λ j. get run.config_snapshot j) ((eq_iff k key).0 e))
    | inr e ↦ ground (arith, e, get-collect run fields key attr (ground (arith, e, h)))
  ]

  get_other :
      (d : Dict String (Setting V)) (k j : String) (v : Setting V)
      → j ≢ k
      → get (put d k v) j ≡ get d j
  get_other d k j v n = elim (Bool-cases (k == j)) [
    | inl e ↦ absurd (n (sym ((eq_iff k j).0 e)))
    | inr e ↦ ground (arith, e, get-put d k j v)
  ]

  some_inj : (a b : Dict String (Setting V)) → some a ≡ some b → a ≡ b
  some_inj a b h = ground (arith, h)

  module _ (truthy : V → Bool) (model_validate : Dict String V → Option V) where
    -- What stands for a value that is empty: the empty object for null, and for a value that counts
    -- as false.
    abbrev pub IsOrEmpty : Setting V → Setting V → Type 0
    IsOrEmpty null m = m ≡ object []
    IsOrEmpty (object d) m = m ≡ object d
    IsOrEmpty (plain v) m =
        ((truthy v ≡ true) × (m ≡ plain v)) ⊎ ((truthy v ≡ false) × (m ≡ object []))

    -- The model is what validation makes of some object that has, for each key, the value of the
    -- run's own setting under the overrides.
    abbrev pub IsModel : Setting V → Dict String V → Setting V → Type 0
    IsModel own overrides m =
        (d : Dict String V) × (merged : Dict String V) × (validated : V) × (IsOrEmpty own (object d)
          × ((key : String) → get merged key ≡ overridden overrides key (get d key))
          × (model_validate merged ≡ some validated)
          × (m ≡ plain validated))

    or_empty-IsOrEmpty : (v : Setting V) → IsOrEmpty v (or_empty truthy v)
    unfolding or_empty
    or_empty-IsOrEmpty null = refl
    or_empty-IsOrEmpty (object d) = refl
    or_empty-IsOrEmpty (plain v) = elim (Bool-cases (truthy v)) [
      | inl e ↦ inl (e, rw e refl)
      | inr e ↦ inr (e, rw e refl)
    ]

    mapping-IsOrEmpty :
        (v : Setting V)
        → (mapping truthy v ≡ none)
          ⊎ ((d : Dict String V) × ((mapping truthy v ≡ some d) × IsOrEmpty v (object d)))
    unfolding mapping
    mapping-IsOrEmpty null = inr ([], (refl, refl))
    mapping-IsOrEmpty (object d) = inr (d, (refl, refl))
    mapping-IsOrEmpty (plain v) = elim (Bool-cases (truthy v)) [
      | inl e ↦ inl (rw e refl)
      | inr e ↦ inr ([], (rw e refl, inr (e, refl)))
    ]

    model_setting-IsModel :
        (own : Setting V) (overrides : Dict String V) (m : Setting V)
        → model_setting truthy model_validate (mapping truthy own) overrides ≡ some m
        → IsModel own overrides m
    unfolding model_setting
    model_setting-IsModel own overrides m h = elim (mapping-IsOrEmpty own) [
      | inl e ↦ ground (arith, e, h)
      | inr (d, (e, empty)) ↦ elim (Option-cases (model_validate (merge d overrides))) [
        | inl refused ↦ ground (arith, e, refused, h)
        | inr (v, valid) ↦ (
          d,
          merge d overrides,
          v,
          (empty, (λ key. get-merge overrides d key), valid, ground (arith, e, valid, h)),
        )
      ]
    ]

    pub Effective : Rows V → Bool → Dict String (Setting V) → Type 0
    Effective run apply settings =
        ((key attr : String)
          → get agent_fields key ≡ some attr
          → key ≢ "pattern_config"
          → key ≢ "model_config"
          → key ≢ "memory_config"
          → (v : Setting V) × ((get settings key ≡ some v) × IsBase run key attr v))
        × ((p : Setting V) × ((get settings "pattern_config" ≡ some p) × IsPattern run apply p))
        × ((own : Setting V) × ((m : Setting V) × ((get settings "memory_config" ≡ some m)
                × IsBase run "memory_config" "memory_config_data" own
                × IsOrEmpty own m)))
        × ((own : Setting V) × ((m : Setting V) × ((get settings "model_config" ≡ some m)
                × IsBase run "model_config" "model_config_data" own
                × IsModel own (if apply then run.model_config_overrides else []) m)))

    written : Dict String (Setting V) → Setting V → Setting V → Setting V → Dict String (Setting V)
    written collected pattern model memory =
        put (put (put collected "pattern_config" pattern) "model_config" model) "memory_config"
          memory

    get-written :
        (collected : Dict String (Setting V)) (pattern model memory : Setting V) (key : String)
        → key ≢ "pattern_config"
        → key ≢ "model_config"
        → key ≢ "memory_config"
        → get (written collected pattern model memory) key ≡ get collected key
    unfolding written
    get-written collected pattern model memory key p m w =
        get_other _ "memory_config" key memory w
        ∙ get_other _ "model_config" key model m
        ∙ get_other collected "pattern_config" key pattern p

    finish-written :
        (first : Dict String (Setting V)) (o : Option (Setting V))
        (settings : Dict String (Setting V))
        → finish truthy first o ≡ some settings
        → (m : Setting V) × (o ≡ some m) × (finish truthy first (some m) ≡ some settings)
    unfolding finish
    finish-written first none settings h = ground (arith, h)
    finish-written first (some m) settings h = (m, refl, h)

    model_of : Rows V → Bool → Option (Setting V)
    model_of run apply =
        model_setting truthy model_validate
          (mapping truthy (base run "model_config" "model_config_data"))
          (if apply then run.model_config_overrides else [])

    -- The settings that resolution ends with, once the model's setting is known.
    final : Rows V → Bool → Setting V → Dict String (Setting V)
    final run apply m =
        written (collect run.config_snapshot run.agent agent_fields) (pattern_of run apply) m
          (or_empty truthy (base run "memory_config" "memory_config_data"))

    effective_agent_config-final :
        (run : Rows V) (apply : Bool) (settings : Dict String (Setting V))
        → effective_agent_config truthy model_validate run apply ≡ some settings
        → (m : Setting V) × (model_of run apply ≡ some m) × (final run apply m ≡ settings)
    unfolding effective_agent_config final written finish put get get_or collect model_of pattern_of
        base
    effective_agent_config-final run apply settings h =
        let first =
          put (collect run.config_snapshot run.agent agent_fields) "pattern_config"
            (pattern_of run apply) in
        let (m, q, r) = finish-written first (model_of run apply) settings h in
        (m, q, some_inj _ _ r)

    final-Effective :
        (run : Rows V) (apply : Bool) (m : Setting V)
        → model_of run apply ≡ some m
        → Effective run apply (final run apply m)
    unfolding Effective final written put get collect model_of
    final-Effective run apply m q = (
      λ key attr f p n w. (
        base run key attr,
        (
          get-written (collect run.config_snapshot run.agent agent_fields) (pattern_of run apply) m
                (or_empty truthy (base run "memory_config" "memory_config_data")) key p n w
              ∙ get-collect run agent_fields key attr f,
          pinned_or_own-IsBase run key attr,
        ),
      ),
      (pattern_of run apply, (refl, pattern_of-IsPattern run apply)),
      (
        base run "memory_config" "memory_config_data",
        (
          or_empty truthy (base run "memory_config" "memory_config_data"),
          (
            refl,
            pinned_or_own-IsBase run "memory_config" "memory_config_data",
            or_empty-IsOrEmpty (base run "memory_config" "memory_config_data"),
          ),
        ),
      ),
      (
        base run "model_config" "model_config_data",
        (
          m,
          (
            refl,
            pinned_or_own-IsBase run "model_config" "model_config_data",
            model_setting-IsModel (base run "model_config" "model_config_data")
                (if apply then run.model_config_overrides else []) m q,
          ),
        ),
      ),
    )

    -- Where the settings of a run are resolved, a setting pinned in the snapshot, null included,
    -- is the run's, and another is the agent's own; but the legacy pattern overrides replace a
    -- pattern that is not pinned, if they apply and there are some, and no other; a memory setting
    -- that is null or counts as false becomes the empty object; and the model is what validation
    -- makes of the run's setting, the empty object for one that is null or counts as false, under
    -- the overrides of the model, if they apply.
    pub effective_agent_config-Effective :
        (run : Rows V) (apply : Bool) (settings : Dict String (Setting V))
        → effective_agent_config truthy model_validate run apply ≡ some settings
        → Effective run apply settings
    effective_agent_config-Effective run apply settings h =
        let (m, q, r) = effective_agent_config-final run apply settings h in
        subst (Effective run apply) r (final-Effective run apply m q)
