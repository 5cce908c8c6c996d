-- ===== src/Db/Connection/Escape.antt =====
-- Reading an escaped value by the ODBC rule for braced values.
use Prim.Native.Char.{Char, code}
use text.Mathlib.TextLemmas.{cons-append, nil-append, append_assoc}
use query_smith.Prelude.{
  Bool-cases, inl, inr, String, ◌<>◌, true, false, Option, none, some, ◌≡◌, refl, ◌==◌,
  if◌then◌else◌,
}
use query_smith.Db.Connection.{double_braces, odbc_escape}

abbrev with_char : Char → Option (String × String) → Option (String × String)
with_char c none = none
with_char c (some (value, rest)) = some (String.◌∷◌ c value, rest)

-- The value up to the first brace that is not doubled, and what stands behind that brace.
pub read_braced : String → Option (String × String)
read_braced String.[] = none
read_braced (String.◌∷◌ c String.[]) = if code c == 125 then some ("", "") else none
read_braced (String.◌∷◌ c (String.◌∷◌ d s)) =
    let doubled = with_char c (read_braced s) in
    let plain = with_char c (read_braced (String.◌∷◌ d s)) in
    if code c == 125 then if code d == 125 then doubled else some ("", String.◌∷◌ d s) else plain

-- A text that a braced value may be followed by: it does not begin with a closing brace.
abbrev pub NoBraceFirst : String → Type 0
NoBraceFirst String.[] = Unit
NoBraceFirst (String.◌∷◌ c s) = (code c == 125) ≡ false

read-plain :
    (c : Char) (t : String)
    → (code c == 125) ≡ false
    → read_braced (String.◌∷◌ c t) ≡ with_char c (read_braced t)
unfolding read_braced
read-plain c String.[] h = rw h refl
read-plain c (String.◌∷◌ d s) h = rw h refl

read-doubled :
    (c : Char) (t : String)
    → (code c == 125) ≡ true
    → read_braced (String.◌∷◌ c (String.◌∷◌ c t)) ≡ with_char c (read_braced t)
unfolding read_braced
read-doubled c t h = rw h refl

read_end : (rest : String) → NoBraceFirst rest → read_braced ("}" <> rest) ≡ some ("", rest)
unfolding read_braced
read_end String.[] h = refl
read_end (String.◌∷◌ c s) h =
    rw (cons-append _ "" (String.◌∷◌ c s), nil-append (String.◌∷◌ c s), h) refl

read-double_braces :
    (value rest : String)
    → NoBraceFirst rest
    → read_braced (double_braces value <> ("}" <> rest)) ≡ some (value, rest)
unfolding double_braces
read-double_braces String.[] rest h = rw (nil-append ("}" <> rest)) (read_end rest h)
read-double_braces (String.◌∷◌ c s) rest h = elim (Bool-cases (code c == 125)) [
  | inl brace ↦
      rw
        (
          brace,
          cons-append c (String.◌∷◌ c (double_braces s)) ("}" <> rest),
          cons-append c (double_braces s) ("}" <> rest),
          read-doubled c (double_braces s <> ("}" <> rest)) brace,
          read-double_braces s rest h,
        )
        refl
  | inr other ↦
      rw
        (
          other,
          cons-append c (double_braces s) ("}" <> rest),
          read-plain c (double_braces s <> ("}" <> rest)) other,
          read-double_braces s rest h,
        )
        refl
]

-- An escaped value is `{` and a text from which the ODBC rule reads the value back, whatever
-- characters it has, if what follows does not begin with a closing brace.
pub read-odbc_escape :
    (value rest : String)
    → NoBraceFirst rest
    → (body : String) × (odbc_escape value <> rest ≡ "{" <> body)
      × (read_braced body ≡ some (value, rest))
unfolding odbc_escape
read-odbc_escape value rest h = (
  double_braces value <> ("}" <> rest),
  rw
      (
        append_assoc "{" (double_braces value <> "}") rest,
        append_assoc (double_braces value) "}" rest,
      )
      refl,
  read-double_braces value rest h,
)
