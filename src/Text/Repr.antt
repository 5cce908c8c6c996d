-- ===== src/Text/Repr.antt =====
-- `repr` of texts and of lists of texts, and `str` of an optional value, as the f-strings print
-- them. Characters above U+00AD are taken as printable, which most assigned ones are.
use Prim.Native.Char.{Char, code}
use query_smith.Prelude.{
  ℕ, ◌/◌, ◌%◌, Bool, not, ◌&&◌, ◌||◌, String, ◌<>◌, List, ◌∷◌, [], map, Option, none, some, ◌≡◌,
  refl, ltb, leb, ◌==◌, if◌then◌else◌,
}
use query_smith.Text.{join}
use query_smith.Text.Numerals.{digit, show_ℕ}

abbrev pub hex_digit : ℕ → String
hex_digit n =
    if ltb n 10
    then digit n
    else if n == 10
    then "a"
    else if n == 11
    then "b"
    else if n == 12
    then "c"
    else if n == 13
    then "d"
    else if n == 14
    then "e"
    else "f"

has_code : ℕ → String → Bool
has_code n String.[] = Bool.false
has_code n (String.◌∷◌ c s) = code c == n || has_code n s

-- One character inside quotes of the code `quote`.
repr_char : ℕ → Char → String
repr_char quote c =
    let n = code c in
    if n == 92 || n == quote
    then "\\" <> String.◌∷◌ c String.[]
    else if n == 9
    then "\\t"
    else if n == 10
    then "\\n"
    else if n == 13
    then "\\r"
    else if ltb n 32 || leb 127 n && leb n 160 || n == 173
    then "\\x" <> hex_digit (n / 16) <> hex_digit (n % 16)
    else String.◌∷◌ c String.[]

repr_chars : ℕ → String → String
unfolding repr_char
repr_chars quote String.[] = String.[]
repr_chars quote (String.◌∷◌ c s) = repr_char quote c <> repr_chars quote s

-- `repr(s)`: in double quotes if that saves the escapes.
unfoldable pub repr_text : String → String
unfolding repr_chars has_code show_ℕ
repr_text s =
    if has_code 39 s && not (has_code 34 s)
    then "\"" <> repr_chars 34 s <> "\""
    else "'" <> repr_chars 39 s <> "'"

-- `repr(xs)` for a `list[str]`
unfoldable pub repr_list : List String → String
unfolding repr_text join
repr_list xs = "[" <> join ", " (map repr_text xs) <> "]"

-- `f"{o}"` for an optional value
abbrev pub show_optional {ℓ} : {A : Type ℓ} → (A → String) → Option A → String
show_optional f none = "None"
show_optional f (some a) = f a

repr_tests :
    (repr_list ("[a].[b]=(1)" ∷ "x = 'y'" ∷ []) ≡ "['[a].[b]=(1)', \"x = 'y'\"]")
    × (repr_text "a\\b'\"" ≡ "'a\\\\b\\'\"'")
unfolding repr_list
repr_tests = (refl, refl)
