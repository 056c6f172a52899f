-- ===== src/Prelude/Texts.antt =====
-- Python's operations on texts.
use Prim.Native.Char.{Char, code}
use Prim.Native.Nat.{ℕ}
use Prim.Native.String.{String}
use mathlib.Core.Bool.{Bool, true, false, ◌&&◌, ◌||◌}
use mathlib.Core.List.{List, [], ◌∷◌}
use motoro.Prelude.Tests.{◌==◌, eq_text, eq_number, if◌then◌else◌}
use motoro.Prelude.Lists.{has}

-- The code points of the characters for which Python's `isspace` holds.
spaces : List ℕ
spaces =
    9 ∷ 10 ∷ 11 ∷ 12 ∷ 13 ∷ 28 ∷ 29 ∷ 30 ∷ 31 ∷ 32 ∷ 133 ∷ 160 ∷ 5760 ∷ 8192 ∷ 8193 ∷ 8194 ∷ 8195
    ∷ 8196 ∷ 8197 ∷ 8198 ∷ 8199 ∷ 8200 ∷ 8201 ∷ 8202 ∷ 8232 ∷ 8233 ∷ 8239 ∷ 8287 ∷ 12288 ∷ []

is_space : Char → Bool
unfolding spaces
is_space c = has spaces (code c)

strip_left : String → String
unfolding is_space
strip_left String.[] = ""
strip_left (String.◌∷◌ c s) = let rest = strip_left s in if is_space c then rest else String.◌∷◌ c s

strip_right : String → String
unfolding is_space
strip_right String.[] = ""
strip_right (String.◌∷◌ c s) =
    let rest = strip_right s in if is_space c && rest == "" then "" else String.◌∷◌ c rest

unfoldable pub strip : String → String
unfolding strip_left strip_right
strip s = strip_right (strip_left s)

-- s + t
unfoldable pub concat : String → String → String
concat String.[] t = t
concat (String.◌∷◌ c s) t = String.◌∷◌ c (concat s t)

lower_char : Char → String → String → Char
lower_char c (String.◌∷◌ u us) (String.◌∷◌ l ls) =
    let rest = lower_char c us ls in if code c == code u then l else rest
lower_char c _ _ = c

-- `lower` for the characters of ASCII.
unfoldable pub lower : String → String
unfolding lower_char
lower String.[] = ""
lower (String.◌∷◌ c s) =
    String.◌∷◌ (lower_char c "ABCDEFGHIJKLMNOPQRSTUVWXYZ" "abcdefghijklmnopqrstuvwxyz") (lower s)

starts_with : String → String → Bool
starts_with String.[] s = true
starts_with (String.◌∷◌ c p) String.[] = false
starts_with (String.◌∷◌ c p) (String.◌∷◌ d s) = code c == code d && starts_with p s

-- part in s
unfoldable pub contains_text : String → String → Bool
unfolding starts_with
contains_text part String.[] = part == ""
contains_text part (String.◌∷◌ c s) = starts_with part (String.◌∷◌ c s) || contains_text part s
