-- ===== src/Text/Lines.antt =====
-- `str.splitlines`, and padding and repeating texts.
use Prim.Native.Char.{Char, code}
use Prim.Native.String.{count}
use query_smith.Prelude.{
  ℕ, zero, suc, ◌-◌, Bool, false, ◌&&◌, ◌||◌, String, ◌<>◌, List, [], ◌∷◌, leb, ◌==◌, ◌≡◌, refl,
  if◌then◌else◌,
}
use query_smith.Text.{truthy}

-- `c * n` for a text of one character
abbrev pub repeat : Char → ℕ → String
repeat c zero = String.[]
repeat c (suc n) = String.◌∷◌ c (repeat c n)

-- `f"{s:<width}"`
unfoldable pub pad_right : ℕ → String → String
pad_right width s = s <> repeat " " (width - count s)

-- The characters that end a line; a carriage return and the line feed behind it are one end.
abbrev is_break : Char → Bool
is_break c =
    let n = code c in
    leb 10 n && leb n 13 || leb 28 n && leb n 30 || n == 133 || n == 8232 || n == 8233

abbrev starts_with_line_feed : String → Bool
starts_with_line_feed String.[] = false
starts_with_line_feed (String.◌∷◌ c s) = code c == 10

-- the lines of a text whose first line, and lines behind it, are given
abbrev lines_of : String → String × List String → List String
lines_of s (line, rest) = if truthy s then line ∷ rest else []

-- The text up to the first end of a line, and the lines behind it.
unfoldable pub split_line : String → String × List String
split_line String.[] = (String.[], [])
split_line (String.◌∷◌ c s) =
    let later = split_line s in
    if is_break c
    then if code c == 13 && starts_with_line_feed s then later else (String.[], lines_of s later)
    else (String.◌∷◌ c later.0, later.1)

unfoldable pub splitlines : String → List String
unfolding split_line
splitlines s = lines_of s (split_line s)

lines_tests :
    (splitlines "" ≡ [])
    × (splitlines "a" ≡ "a" ∷ [])
    × (splitlines "a\n" ≡ "a" ∷ [])
    × (splitlines "\n" ≡ "" ∷ [])
    × (splitlines "a\r\n\nb" ≡ "a" ∷ "" ∷ "b" ∷ [])
    × (splitlines "a\n\rb" ≡ "a" ∷ "" ∷ "b" ∷ [])
    × (pad_right 8 "INFO" ≡ "INFO    ")
    × (pad_right 2 "INFO" ≡ "INFO")
unfolding splitlines pad_right
lines_tests = (refl, refl, refl, refl, refl, refl, refl, refl)
