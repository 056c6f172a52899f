-- ===== src/Commands.antt =====
-- security/mcp_command_allowlist.py: which commands may start an MCP server.
pub mod Acceptance
mod Examples
use Prim.Native.Char.{Char, code}
use Prim.Native.String
use motoro.Prelude.{
  ℕ, String, eq_text, eq_number, Bool, true, false, not, ◌==◌, ◌||◌, Option, none, some, List, [],
  ◌∷◌, any, has, strip, if◌then◌else◌,
}

abbrev pub allowed_mcp_executables : List String
allowed_mcp_executables =
    "python" ∷ "python3" ∷ "python3.11" ∷ "python3.12" ∷ "uv" ∷ "node" ∷ "npx" ∷ "npm" ∷ []

-- The codes of ; & | ` $ < > ( ) \ and of the line feed and the carriage return.
abbrev pub shell_meta : List ℕ
shell_meta = 59 ∷ 38 ∷ 124 ∷ 96 ∷ 36 ∷ 60 ∷ 62 ∷ 40 ∷ 41 ∷ 92 ∷ 10 ∷ 13 ∷ []

-- _SHELL_META_RE.search(token)
unfoldable pub search_meta : String → Bool
search_meta String.[] = false
search_meta (String.◌∷◌ c s) = has shell_meta (code c) || search_meta s

last_part : Bool → String → Option String → Option String
last_part slash s (some part) = some part
last_part true s none = some s
last_part false s none = none

-- The text behind the last slash, if there is a slash.
after_slash : String → Option String
unfolding last_part
after_slash String.[] = none
after_slash (String.◌∷◌ c s) = last_part (code c == 47) s (after_slash s)

whole_or : String → Option String → String
whole_or path none = path
whole_or path (some part) = part

-- os.path.basename
pub basename : String → String
unfolding after_slash whole_or
basename path = whole_or path (after_slash path)

pub data McpCommandError : Type 0 where
  empty_command unparseable no_arguments : McpCommandError
  not_allowed meta_character : String → McpCommandError

-- for token in parts
unfoldable pub check_tokens : List String → Option McpCommandError
unfolding search_meta
check_tokens [] = none
check_tokens (token ∷ tokens) =
    let rest = check_tokens tokens in
    if search_meta token then some (meta_character token) else rest

unfoldable pub check_parts : Option (List String) → Option McpCommandError
unfolding check_tokens basename
check_parts none = some unparseable
check_parts (some []) = some no_arguments
check_parts (some (first ∷ rest)) =
    if has allowed_mcp_executables (basename first)
    then check_tokens (first ∷ rest)
    else some (not_allowed (basename first))

-- The MCPCommandError that is raised, if any. `split` is shlex.split, which fails on a text that
-- does not parse.
unfoldable pub validate_stdio_command :
    (String → Option (List String)) → String → Option McpCommandError
unfolding check_parts strip
validate_stdio_command split command =
    if command == "" || strip command == "" then some empty_command else check_parts (split command)
