-- ===== src/Runtime/Plan/Validity.antt =====
-- What `_validate_plan_tools` leaves of a plan.
use motoro.Prelude.{
  sym, ◌∙◌, String, eq_text, true, false, not, ◌==◌, ◌||◌, Option, none, some, List, [], ◌∷◌, ◌++◌,
  map, select, has, has-append, In, ◌≡◌, ◌≢◌, ◌⊎◌, ◌↔◌, inl, inr, refl, ap, arith, Bool-cases,
  eq_iff,
}
use motoro.Runtime.Types.{PlanStep, PlanOutput}
use motoro.Runtime.Plan.{
  ToolDescriptor, Peer, tool_names_for_run, agent_names, valid_names, names_unknown_tool,
  validate_step, validate_plan_tools,
}

-- A name that the run offers: one of the names of its tools, the name of a tool's descriptor, or
-- the function name of a peer that has an id.
abbrev pub Offered : (Peer → String) → List ToolDescriptor → List Peer → String → Type 0
Offered slug tools agents name =
    In name (tool_names_for_run tools)
    ⊎ (((t : ToolDescriptor) × (In t tools × (t.name ≡ name)))
        ⊎ ((a : Peer) × (In a agents × (a.agent_id ≢ "") × (slug a ≡ name))))

-- A step names no tool, the empty name, or a name that the run offers.
abbrev pub NamesKnown : (String → Type 0) → Option String → Type 0
NamesKnown Known none = Unit
NamesKnown Known (some tool) = (tool ≡ "") ⊎ Known tool

-- A step and what validation makes of it: the same step, if it names no other tool, and otherwise
-- the step without the name and without the arguments.
abbrev pub Checked : (String → Type 0) → PlanStep → PlanStep → Type 0
Checked Known step step' =
    (NamesKnown Known step.tool_name × (step' ≡ step))
    ⊎ ((¬ NamesKnown Known step.tool_name)
        × (step' ≡ record {
          action = step.action;
          description = step.description;
          tool_name = none;
          tool_args = none;
          expected_outcome = step.expected_outcome;
        }))

-- Two lists of one length, step by step.
abbrev pub AllChecked : (String → Type 0) → List PlanStep → List PlanStep → Type 0
AllChecked Known [] [] = Unit
AllChecked Known (s ∷ ss) (s' ∷ ss') = Checked Known s s' × AllChecked Known ss ss'
AllChecked Known _ _ = ⊥

has-In : (names : List String) (name : String) → (has names name ≡ true) ↔ In name names
has-In [] name = (λ h. ground (arith, h), λ m. absurd m)
has-In (x ∷ xs) name = (
  λ h. elim (Bool-cases (x == name)) [
    | inl e ↦ inl ((eq_iff x name).0 e)
    | inr e ↦ inr ((has-In xs name).0 (ground (arith, e, h)))
  ],
  λ m. elim m [
    | inl e ↦ ground (arith, (eq_iff x name).1 e)
    | inr r ↦ ground (arith, (has-In xs name).1 r)
  ],
)

has-tool_names :
    (tools : List ToolDescriptor) (name : String)
    → name ≢ ""
    → (has (select (λ n. not (n == "")) (map (λ t. t.name) tools)) name ≡ true)
      ↔ ((t : ToolDescriptor) × (In t tools × (t.name ≡ name)))
has-tool_names [] name n = (λ h. ground (arith, h), λ (t, (m, e)). absurd m)
has-tool_names (t ∷ ts) name n = (
  λ h. elim (Bool-cases (t.name == name)) [
    | inl e ↦ (t, (inl refl, (eq_iff t.name name).0 e))
    | inr e ↦
        let (u, (m, p)) = (has-tool_names ts name n).0 (ground (arith, e, h)) in (u, (inr m, p))
  ],
  λ (u, (m, p)). elim m [
    | inl e ↦
        let q : t.name ≡ name = ap (λ x. x.name) e ∙ p in
        let nonempty : (t.name == "") ≡ false = ground (arith, n, q, eq_iff t.name "") in
        rw nonempty (ground (arith, (eq_iff t.name name).1 q))
    | inr r ↦ ground (arith, (has-tool_names ts name n).1 (u, (r, p)))
  ],
)

has-agent_names :
    (slug : Peer → String) (agents : List Peer) (name : String)
    → (has (agent_names slug agents) name ≡ true)
      ↔ ((a : Peer) × (In a agents × (a.agent_id ≢ "") × (slug a ≡ name)))
unfolding agent_names
has-agent_names slug [] name = (λ h. ground (arith, h), λ (a, (m, i, e)). absurd m)
has-agent_names slug (a ∷ agents) name = elim (Bool-cases (a.agent_id == "")) [
  | inl e ↦ (
    λ h.
        let (b, (m, i, p)) = (has-agent_names slug agents name).0 (ground (arith, e, h)) in
        (b, (inr m, i, p)),
    λ (b, (m, i, p)). elim m [
      | inl q ↦ absurd (i (ap (λ x. x.agent_id) (sym q) ∙ (eq_iff a.agent_id "").0 e))
      | inr r ↦ ground (arith, e, (has-agent_names slug agents name).1 (b, (r, i, p)))
    ],
  )
  | inr e ↦ (
    λ h. elim (Bool-cases (slug a == name)) [
      | inl p ↦ (
        a,
        (inl refl, (λ q. ground (arith, e, q, eq_iff a.agent_id "")), (eq_iff (slug a) name).0 p),
      )
      | inr p ↦
          let (b, (m, i, q)) = (has-agent_names slug agents name).0 (ground (arith, e, p, h)) in
          (b, (inr m, i, q))
    ],
    λ (b, (m, i, p)). elim m [
      | inl q ↦ ground (arith, e, (eq_iff (slug a) name).1 (ap slug q ∙ p))
      | inr r ↦ ground (arith, e, (has-agent_names slug agents name).1 (b, (r, i, p)))
    ],
  )
]

-- The code's test on a name that is not empty.
has-valid_names :
    (slug : Peer → String) (tools : List ToolDescriptor) (agents : List Peer) (name : String)
    → name ≢ ""
    → (has (valid_names slug tools agents) name ≡ true) ↔ Offered slug tools agents name
unfolding valid_names
has-valid_names slug tools agents name n =
    let run_names = tool_names_for_run tools in
    let tool_names = select (λ n. not (n == "")) (map (λ t. t.name) tools) in
    let peers = agent_names slug agents in
    let split : has (run_names ++ tool_names ++ peers) name
        ≡ (has run_names name || (has tool_names name || has peers name)) =
      ground (
        arith,
        has-append (run_names ++ tool_names) peers name,
        has-append run_names tool_names name,
        has-append tool_names peers name,
        has-append run_names (tool_names ++ peers) name,
      ) in
    (
      λ h. elim (Bool-cases (has run_names name)) [
        | inl e ↦ inl ((has-In run_names name).0 e)
        | inr e ↦ elim (Bool-cases (has tool_names name)) [
          | inl f ↦ inr (inl ((has-tool_names tools name n).0 f))
          | inr f ↦
              inr (inr ((has-agent_names slug agents name).0 (ground (arith, split, e, f, h))))
        ]
      ],
      λ m. elim m [
        | inl a ↦ ground (arith, split, (has-In run_names name).1 a)
        | inr (inl b) ↦ ground (arith, split, (has-tool_names tools name n).1 b)
        | inr (inr c) ↦ ground (arith, split, (has-agent_names slug agents name).1 c)
      ],
    )

module _ (slug : Peer → String) (tools : List ToolDescriptor) (agents : List Peer) where
  names_unknown_tool-false :
      (o : Option String)
      → names_unknown_tool (valid_names slug tools agents) o ≡ false
      → NamesKnown (Offered slug tools agents) o
  unfolding names_unknown_tool
  names_unknown_tool-false none h = tt
  names_unknown_tool-false (some tool) h = elim (Bool-cases (tool == "")) [
    | inl e ↦ inl ((eq_iff tool "").0 e)
    | inr e ↦ inr (
        (has-valid_names slug tools agents tool (λ q. ground (arith, e, q, eq_iff tool ""))).0
          (ground (arith, e, h)))
  ]

  names_unknown_tool-true :
      (o : Option String)
      → names_unknown_tool (valid_names slug tools agents) o ≡ true
      → ¬ NamesKnown (Offered slug tools agents) o
  unfolding names_unknown_tool
  names_unknown_tool-true none h known = ground (arith, h)
  names_unknown_tool-true (some tool) h (inl e) = ground (arith, h, (eq_iff tool "").1 e)
  names_unknown_tool-true (some tool) h (inr m) = ground (
    arith,
    h,
    (has-valid_names slug tools agents tool (λ q. ground (arith, h, (eq_iff tool "").1 q))).1 m,
  )

  validate_step-Checked :
      (step : PlanStep)
      → Checked
          (Offered slug tools agents)
          step
          (validate_step (valid_names slug tools agents) step)
  unfolding validate_step
  validate_step-Checked step =
      elim (Bool-cases (names_unknown_tool (valid_names slug tools agents) step.tool_name)) [
        | inl e ↦ rw e (inr (names_unknown_tool-true step.tool_name e, refl))
        | inr e ↦ rw e (inl (names_unknown_tool-false step.tool_name e, refl))
      ]

  validate_steps-AllChecked :
      (steps : List PlanStep)
      → AllChecked
          (Offered slug tools agents)
          steps
          (map (validate_step (valid_names slug tools agents)) steps)
  validate_steps-AllChecked [] = tt
  validate_steps-AllChecked (s ∷ ss) = (validate_step-Checked s, validate_steps-AllChecked ss)

-- Validation leaves each step of a plan as it was, if it names no tool, the empty name, a name of
-- the run's tools, the name of a tool's descriptor or the function name of a peer with an id; from
-- every other step it takes the name and the arguments of the tool, and nothing else. The rest of
-- the plan stays.
pub validate_plan_tools_lem :
    (slug : Peer → String) (tools : List ToolDescriptor) (agents : List Peer) (p : PlanOutput)
    → let validated = validate_plan_tools slug tools agents p in
      AllChecked (Offered slug tools agents) p.steps validated.steps
      × (validated.is_complete ≡ p.is_complete)
      × (validated.completion_reason ≡ p.completion_reason)
unfolding validate_plan_tools
validate_plan_tools_lem slug tools agents p =
    (validate_steps-AllChecked slug tools agents p.steps, refl, refl)
