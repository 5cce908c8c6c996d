-- ===== src/Argparse.antt =====
-- argparse, as cli.py and web/server.py use it: what they declare of their options, and the parser
-- as a parameter. What argparse prints on its own account is left out.
pub mod Laws
use Prim.Native.Char.{code}
use query_smith.Prelude.{
  ℕ, ◌<>◌, String, Bool, true, false, List, Option, none, some, ◌≡◌, All, ◌==◌, if◌then◌else◌,
}
use query_smith.Prelude.Outcome.{Outcome, ok, err, other_error}
use query_smith.Prelude.Int.{ℤ}
use query_smith.Adapter.Xml.{lookup}

-- `type=float` and `type=int`, `BooleanOptionalAction` and `"store_true"`, or the text itself
pub data Reads : Type 0 where
  as_text as_float as_int boolean_optional store_true : Reads

-- A value in the namespace.
pub data Setting (F : Type 0) : Type 0 where
  text : String → Setting F
  number : F → Setting F
  whole : ℤ → Setting F
  switch : Bool → Setting F

-- `parser.add_argument(…)`
pub record Argument (F : Type 0) : Type 0 where
  pub option : String
  pub reads : Reads
  pub required : Bool
  pub default : Option (Setting F)
  pub help : String

-- `argparse.ArgumentParser(…)` with its options
pub record Parser (F : Type 0) : Type 0 where
  pub prog : String
  pub description : String
  pub arguments : List (Argument F)

abbrev pub Namespace : Type 0 → Type 0
Namespace F = List (String × Setting F)

-- `parser.parse_args(argv)` exits the program, with `--help` or on an error, or has a result.
pub data Parsing (F : Type 0) : Type 0 where
  exits : ℕ → Parsing F
  namespace : Namespace F → Parsing F

abbrev pub Argparse : Type 0 → Type 0
Argparse F = Parser F → List String → Parsing F

abbrev underscored : String → String
underscored String.[] = String.[]
underscored (String.◌∷◌ c s) = String.◌∷◌ (if code c == 45 then "_" else c) (underscored s)

-- The name of a long option's value: without the dashes in front, with `_` for any other.
abbrev pub dest : String → String
dest (String.◌∷◌ c (String.◌∷◌ d name)) = underscored name
dest name = name

abbrev pub Fits : {F : Type 0} → Reads → Setting F → Type 0
Fits as_text (text s) = Unit {0}
Fits as_float (number x) = Unit
Fits as_int (whole n) = Unit
Fits boolean_optional (switch b) = Unit
Fits store_true (switch b) = Unit
Fits _ _ = ⊥

-- Every option has a value of its type: the one given, or the default.
abbrev pub IsComplete : {F : Type 0} → List (Argument F) → Namespace F → Type 0
IsComplete {F} arguments ns =
    All (λ a. (v : Setting F) × (lookup (dest a.option) ns ≡ some v) × Fits a.reads v) arguments

no_attribute : {A : Type 0} → String → Outcome A
no_attribute name = err (other_error ("'Namespace' object has no attribute '" <> name <> "'"))

-- `args.name`, with a value of the type that its reader takes it for
module _ {F : Type 0} where
  unfoldable pub text_of : String → Option (Setting F) → Outcome String
  unfolding no_attribute
  text_of name (some (text s)) = ok s
  text_of name _ = no_attribute name

  unfoldable pub number_of : String → Option (Setting F) → Outcome F
  unfolding no_attribute
  number_of name (some (number x)) = ok x
  number_of name _ = no_attribute name

  unfoldable pub switch_of : String → Option (Setting F) → Outcome Bool
  unfolding no_attribute
  switch_of name (some (switch b)) = ok b
  switch_of name _ = no_attribute name

  unfoldable pub whole_of : String → Option (Setting F) → Outcome ℤ
  unfolding no_attribute
  whole_of name (some (whole n)) = ok n
  whole_of name _ = no_attribute name
