-- ===== src/Text.antt =====
-- Python's `str` operations that the program uses, over the native texts (sequences of code points).
pub mod Laws
pub mod Numerals
pub mod Repr
pub mod Lines
use Prim.Native.Char.{Char, code}
use text.Mathlib.Text.{starts_with}
use query_smith.Prelude.{
  ℕ, Bool, true, false, not, ◌&&◌, ◌||◌, String, ◌<>◌, List, [], ◌∷◌, Option, none, some, leb, ◌==◌,
  str_eq, if◌then◌else◌,
}

-- `bool(s)`
abbrev pub truthy : String → Bool
truthy String.[] = false
truthy (String.◌∷◌ c s) = true

-- `bool(o)` for an `Optional[str]`
abbrev pub truthy? : Option String → Bool
truthy? none = false
truthy? (some s) = truthy s

-- `str.isspace`
unfoldable pub is_space : Char → Bool
is_space c =
    let n = code c in
    leb 9 n && leb n 13
    || leb 28 n && leb n 32
    || n == 133
    || n == 160
    || n == 5760
    || leb 8192 n && leb n 8202
    || n == 8232
    || n == 8233
    || n == 8239
    || n == 8287
    || n == 12288

unfoldable pub lstrip_by : (Char → Bool) → String → String
lstrip_by p String.[] = String.[]
lstrip_by p (String.◌∷◌ c s) = let rest = lstrip_by p s in if p c then rest else String.◌∷◌ c s

unfoldable pub rstrip_by : (Char → Bool) → String → String
rstrip_by p String.[] = String.[]
rstrip_by p (String.◌∷◌ c s) =
    let rest = rstrip_by p s in if p c && not (truthy rest) then String.[] else String.◌∷◌ c rest

unfoldable pub strip_by : (Char → Bool) → String → String
unfolding lstrip_by rstrip_by
strip_by p s = rstrip_by p (lstrip_by p s)

-- `s.strip()`
unfoldable pub strip : String → String
unfolding strip_by is_space
strip s = strip_by is_space s

unfoldable pub lstrip : String → String
unfolding lstrip_by is_space
lstrip s = lstrip_by is_space s

-- Is the character one of the text's?
abbrev pub char_in : String → Char → Bool
char_in String.[] c = false
char_in (String.◌∷◌ d s) c = code d == code c || char_in s c

-- `needle in hay`
unfoldable pub contains : String → String → Bool
contains needle String.[] = not (truthy needle)
contains needle (String.◌∷◌ c s) = starts_with (String.◌∷◌ c s) needle || contains needle s

-- `s.endswith(c)` for a text of one character
unfoldable pub ends_with_char : Char → String → Bool
ends_with_char d String.[] = false
ends_with_char d (String.◌∷◌ c s) = if truthy s then ends_with_char d s else code c == code d

-- `sep.join(parts)`
unfoldable pub join : String → List String → String
join sep [] = ""
join sep (s ∷ []) = s
join sep (s ∷ t ∷ parts) = s <> sep <> join sep (t ∷ parts)

-- `s in set`
unfoldable pub member : String → List String → Bool
member s [] = false
member s (t ∷ ts) = str_eq s t || member s ts

abbrev translate_char : String → String → Char → Char
translate_char (String.◌∷◌ a from) (String.◌∷◌ b to) c =
    if code a == code c then b else translate_char from to c
translate_char _ _ c = c

translate : String → String → String → String
translate from to String.[] = String.[]
translate from to (String.◌∷◌ c s) = String.◌∷◌ (translate_char from to c) (translate from to s)

-- `s.lower()` and `s.upper()`, on the ASCII letters: the program compares the results with ASCII
-- words only.
unfoldable pub lower : String → String
unfolding translate
lower = translate "ABCDEFGHIJKLMNOPQRSTUVWXYZ" "abcdefghijklmnopqrstuvwxyz"

unfoldable pub upper : String → String
unfolding translate
upper = translate "abcdefghijklmnopqrstuvwxyz" "ABCDEFGHIJKLMNOPQRSTUVWXYZ"
