-- ===== src/Json/Dumps.antt =====
-- `json.dumps(value, indent=2)`, which writes ASCII only.
pub mod Literal
use Prim.Native.Char.{Char, code}
use query_smith.Prelude.{
  ℕ, zero, suc, ◌+◌, ◌-◌, ◌/◌, ◌%◌, String, ◌<>◌, true, false, ◌||◌, ◌&&◌, ◌≡◌, refl, ltb, leb,
  ◌==◌, if◌then◌else◌,
}
use query_smith.Prelude.Int.{pos}
use query_smith.Text.Numerals.{show_ℤ}
use query_smith.Text.Repr.{hex_digit}
use query_smith.Json.{
  Json, null, bool, int, float, str, arr, obj, Items, nil, cons, Fields, end, field,
}

-- \uXXXX
unicode_escape : ℕ → String
unicode_escape n =
    "\\u"
    <> hex_digit (n / 4096)
    <> hex_digit (n / 256 % 16)
    <> hex_digit (n / 16 % 16)
    <> hex_digit (n % 16)

escape_char : Char → String
unfolding unicode_escape
escape_char c =
    let n = code c in
    if n == 34
    then "\\\""
    else if n == 92
    then "\\\\"
    else if n == 10
    then "\\n"
    else if n == 13
    then "\\r"
    else if n == 9
    then "\\t"
    else if n == 8
    then "\\b"
    else if n == 12
    then "\\f"
    else if ltb n 32 || leb 127 n && ltb n 65536
    then unicode_escape n
    else if leb 65536 n
    then unicode_escape (55296 + (n - 65536) / 1024) <> unicode_escape (56320 + (n - 65536) % 1024)
    else String.◌∷◌ c String.[]

escape : String → String
unfolding escape_char
escape String.[] = String.[]
escape (String.◌∷◌ c s) = escape_char c <> escape s

unfoldable pub dumps_text : String → String
unfolding escape
dumps_text s = "\"" <> escape s <> "\""

-- a new line at a level of nesting
newline : ℕ → String
newline zero = "\n"
newline (suc level) = newline level <> "  "

mutual
  unfolding newline dumps_text show_ℤ

  dumps_at : ℕ → Json → String
  dumps_at level null = "null"
  dumps_at level (bool true) = "true"
  dumps_at level (bool false) = "false"
  dumps_at level (int n) = show_ℤ n
  dumps_at level (float s) = s
  dumps_at level (str s) = dumps_text s
  dumps_at level (arr nil) = "[]"
  dumps_at level (arr (cons x xs)) =
      "["
      <> newline (suc level)
      <> dumps_at (suc level) x
      <> dumps_items (suc level) xs
      <> newline level
      <> "]"
  dumps_at level (obj end) = "{}"
  dumps_at level (obj (field k v fields)) =
      "{"
      <> newline (suc level)
      <> dumps_text k
      <> ": "
      <> dumps_at (suc level) v
      <> dumps_fields (suc level) fields
      <> newline level
      <> "}"

  dumps_items : ℕ → Items → String
  dumps_items level nil = ""
  dumps_items level (cons x xs) = "," <> newline level <> dumps_at level x <> dumps_items level xs

  dumps_fields : ℕ → Fields → String
  dumps_fields level end = ""
  dumps_fields level (field k v fields) =
      "," <> newline level <> dumps_text k <> ": " <> dumps_at level v <> dumps_fields level fields

unfoldable pub dumps : Json → String
unfolding dumps_at
dumps = dumps_at 0

dumps_test :
    dumps (obj (field "a" (arr (cons (int (pos 1)) (cons null nil))) (field "é" (obj end) end)))
    ≡ "{\n  \"a\": [\n    1,\n    null\n  ],\n  \"\\u00e9\": {}\n}"
unfolding dumps
dumps_test = refl
