-- ===== src/Commands/Acceptance.antt =====
-- The commands that pass validation.
use Prim.Native.Char.{code}
use motoro.Prelude.{
  String, eq_text, eq_number, PyEq, true, false, ◌==◌, ◌||◌, Option, none, some, List, [], ◌∷◌, has,
  strip, In, All, ◌≡◌, ◌↔◌, inl, inr, ◌≢◌, refl, ap, eq_iff, Bool-cases, arith,
}
use motoro.Commands.{
  allowed_mcp_executables, shell_meta, search_meta, basename, check_tokens, check_parts,
  validate_stdio_command,
}

has-In : {A : Type 0} ⦃e : PyEq A⦄ (xs : List A) (a : A) → (has xs a ≡ true) ↔ In a xs
has-In [] a = (λ h. ground (arith, h), λ m. absurd m)
has-In ⦃e⦄ (x ∷ xs) a =
    let same = e.equal_iff x a in
    let rest = has-In xs a in
    (λ h. ground (arith, h, same, rest), λ m. ground (arith, m, same, rest))

-- No character of the text means something to a shell.
pub Plain : String → Type 0
Plain String.[] = Unit
Plain (String.◌∷◌ c s) = (¬ In (code c) shell_meta) × Plain s

pub Runnable : Option (List String) → Type 0
Runnable none = ⊥
Runnable (some []) = ⊥
Runnable (some (first ∷ rest)) =
    In (basename first) allowed_mcp_executables × All Plain (first ∷ rest)

search_meta-Plain : (s : String) → (search_meta s ≡ false) ↔ Plain s
unfolding search_meta Plain
search_meta-Plain String.[] = (λ _. tt, λ _. refl)
search_meta-Plain (String.◌∷◌ c s) =
    let here = has-In shell_meta (code c) in
    let rest = search_meta-Plain s in
    elim (Bool-cases (has shell_meta (code c))) [
      | inl m ↦ (λ h. ground (arith, m, h), λ p. absurd (p.0 (here.0 m)))
      | inr m ↦ (
        λ h. (λ i. ground (arith, m, here.1 i), rest.0 (ground (arith, m, h))),
        λ p. ground (arith, m, rest.1 p.1),
      )
    ]

check_tokens-Plain : (tokens : List String) → (check_tokens tokens ≡ none) ↔ All Plain tokens
unfolding check_tokens
check_tokens-Plain [] = (λ _. tt, λ _. refl)
check_tokens-Plain (token ∷ tokens) =
    let here = search_meta-Plain token in
    let rest = check_tokens-Plain tokens in
    elim (Bool-cases (search_meta token)) [
      | inl m ↦ (λ h. ground (arith, m, h), λ p. ground (arith, m, here.1 p.0))
      | inr m ↦ (λ h. (here.0 m, rest.0 (ground (arith, m, h))), λ p. ground (arith, m, rest.1 p.1))
    ]

check_parts-Runnable : (parts : Option (List String)) → (check_parts parts ≡ none) ↔ Runnable parts
unfolding check_parts Runnable
check_parts-Runnable none = (λ h. ground (arith, h), λ r. absurd r)
check_parts-Runnable (some []) = (λ h. ground (arith, h), λ r. absurd r)
check_parts-Runnable (some (first ∷ rest)) =
    let allowed = has-In allowed_mcp_executables (basename first) in
    let tokens = check_tokens-Plain (first ∷ rest) in
    elim (Bool-cases (has allowed_mcp_executables (basename first))) [
      | inl m ↦ (
        λ h. (allowed.0 m, tokens.0 (ground (arith, m, h))),
        λ r. ground (arith, m, tokens.1 r.1),
      )
      | inr m ↦ (λ h. ground (arith, m, h), λ r. ground (arith, m, allowed.1 r.0))
    ]

not_blank : (command : String) → strip command ≢ "" → (command == "" || strip command == "") ≡ false
unfolding strip
not_blank command visible = elim (Bool-cases (command == "")) [
  | inl e ↦ absurd (visible (ap (λ s. strip s) ((eq_iff command "").0 e)))
  | inr e ↦ elim (Bool-cases (strip command == "")) [
    | inl b ↦ absurd (visible ((eq_iff (strip command) "").0 b))
    | inr b ↦ ground (arith, e, b)
  ]
]

-- A command that is not blank passes exactly when it splits into tokens of which the first names
-- an allowed executable, by its last path component, and none has a character with a meaning to
-- a shell.
pub validate_stdio_command-Runnable :
    (split : String → Option (List String)) (command : String)
    → strip command ≢ ""
    → (validate_stdio_command split command ≡ none) ↔ Runnable (split command)
unfolding validate_stdio_command
validate_stdio_command-Runnable split command visible =
    let fine = not_blank command visible in
    let parts = check_parts-Runnable (split command) in
    (λ h. parts.0 (ground (arith, fine, h)), λ r. ground (arith, fine, parts.1 r))
