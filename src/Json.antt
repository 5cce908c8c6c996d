-- ===== src/Json.antt =====
-- Values that `json.loads` returns, as the program takes them apart. A float keeps its text, which
-- nothing but the printer reads.
pub mod Dumps
use query_smith.Prelude.{
  String, Bool, true, false, List, [], ◌∷◌, Option, none, some, str_eq, if◌then◌else◌,
}
use query_smith.Prelude.Int.{ℤ, pos}

mutual
  pub data Json : Type 0 where
    null : Json
    bool : Bool → Json
    int : ℤ → Json
    float : String → Json
    str : String → Json
    arr : Items → Json
    obj : Fields → Json

  pub data Items : Type 0 where
    nil : Items
    cons : Json → Items → Items

  pub data Fields : Type 0 where
    end : Fields
    field : String → Json → Fields → Fields

abbrev pub items : Items → List Json
items nil = []
items (cons x xs) = x ∷ items xs

abbrev pub of_items : List Json → Items
of_items [] = nil
of_items (x ∷ xs) = cons x (of_items xs)

-- `d.get(key)`, with `None` for a missing key
unfoldable pub get : String → Fields → Json
get key end = null
get key (field k v fields) = if str_eq k key then v else get key fields

-- `isinstance(v, int)`, with the value: `bool` is a subclass of `int`.
abbrev pub as_int : Json → Option ℤ
as_int (int n) = some n
as_int (bool true) = some (pos 1)
as_int (bool false) = some (pos 0)
as_int _ = none

-- `isinstance(v, str)`, with the value
abbrev pub as_text : Json → Option String
as_text (str s) = some s
as_text _ = none

-- `isinstance(v, list)`, with the elements
abbrev pub as_list : Json → Option (List Json)
as_list (arr xs) = some (items xs)
as_list _ = none
