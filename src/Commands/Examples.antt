-- ===== src/Commands/Examples.antt =====
-- Two commands, one of which goes through a shell.
use motoro.Prelude.{
  eq_iff, String, eq_text, ◌==◌, Option, none, some, List, [], ◌∷◌, strip, ◌≡◌, ◌≢◌, ◌↔◌, refl,
  arith, if◌then◌else◌,
}
use motoro.Commands.{meta_character, not_allowed, validate_stdio_command}
use motoro.Commands.Acceptance.{Runnable, validate_stdio_command-Runnable}

abbrev some_split : String → Option (List String)
some_split command =
    if command == "/usr/bin/npx -y server"
    then some ("/usr/bin/npx" ∷ "-y" ∷ "server" ∷ [])
    else if command == "npx server;ls"
    then some ("npx" ∷ "server;ls" ∷ [])
    else some ("bash" ∷ [])

passes_path : validate_stdio_command some_split "/usr/bin/npx -y server" ≡ none
unfolding validate_stdio_command
passes_path = refl

refuses_operator :
    validate_stdio_command some_split "npx server;ls" ≡ some (meta_character "server;ls")
unfolding validate_stdio_command
refuses_operator = refl

refuses_bash : validate_stdio_command some_split "bash" ≡ some (not_allowed "bash")
unfolding validate_stdio_command
refuses_bash = refl

visible_command : strip "/usr/bin/npx -y server" ≢ ""
unfolding strip
visible_command h = ground (arith, (eq_iff "/usr/bin/npx -y server" "").1 h)

validate_stdio_command-Runnable_example :
    (validate_stdio_command some_split "/usr/bin/npx -y server" ≡ none)
    ↔ Runnable (some_split "/usr/bin/npx -y server")
validate_stdio_command-Runnable_example =
    validate_stdio_command-Runnable some_split "/usr/bin/npx -y server" visible_command
