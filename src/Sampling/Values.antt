-- ===== src/Sampling/Values.antt =====
-- The values that sampling works on: floats, JSON values, and texts with Python's `strip`.
use motoro.Prelude.{
  strip, ℕ, ◌*◌, leb, String, eq_text, eq_number, Bool, true, false, not, ◌==◌, ◌||◌, Option, none,
  some,
}

-- A finite float is a whole number of the smallest steps, of one sign or the other.
pub data Float : Type 0 where
  nan infinite : Float
  plus minus : ℕ → Float

-- math.isfinite(x)
unfoldable pub isfinite : Float → Bool
isfinite nan = false
isfinite infinite = false
isfinite (plus n) = true
isfinite (minus n) = true

-- 0 <= x <= 2, where `one` steps make 1.0.
unfoldable pub between : ℕ → Float → Bool
between one nan = false
between one infinite = false
between one (plus n) = leb n (2 * one)
between one (minus n) = n == 0

-- A list or an object of JSON is `compound`: sampling never looks into one.
pub data JsonValue : Type 0 where
  null compound : JsonValue
  boolean : Bool → JsonValue
  number : Float → JsonValue
  text : String → JsonValue

unfoldable pub json_text : Option String → JsonValue
json_text none = null
json_text (some s) = text s

unfoldable pub json_number : Option Float → JsonValue
json_number none = null
json_number (some x) = number x

-- not s.strip() or s != s.strip()
unfoldable pub is_padded : String → Bool
unfolding strip
is_padded s = strip s == "" || not (strip s == s)
