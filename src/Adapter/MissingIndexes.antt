-- ===== src/Adapter/MissingIndexes.antt =====
-- plan_xml_to_ir.py: `_extract_missing_indexes`.
mod Columns
pub mod Laws
use query_smith.Prelude.{
  String, List, [], ◌∷◌, ◌++◌, map, Option, none, some, str_eq, if◌then◌else◌,
}
use query_smith.Prelude.Outcome.{Outcome, ok, ◌>>=◌}
use query_smith.Text.{truthy}
use query_smith.Float.{Float}
use query_smith.Ir.{MissingIndex}
use query_smith.Adapter.Xml.{Xml, Lxml, value_or, attribute}
use query_smith.Adapter.Extract.{strip_brackets, strip_brackets?}
use query_smith.Adapter.Counters.{get_float}

-- `columns_by_usage`, by its three keys
pub record ColumnsByUsage : Type 0 where
  pub equality : List String
  pub inequality : List String
  pub include : List String

abbrev pub no_columns : ColumnsByUsage
no_columns = record { equality = []; inequality = []; include = [] }

unfoldable pub set_columns : Option String → List String → ColumnsByUsage → ColumnsByUsage
set_columns none names columns = columns
set_columns (some usage) names columns =
    if str_eq usage "EQUALITY"
    then record columns { equality = names }
    else if str_eq usage "INEQUALITY"
    then record columns { inequality = names }
    else if str_eq usage "INCLUDE"
    then record columns { include = names }
    else columns

-- `[_strip_brackets(c.get("Name")) for c in … if c.get("Name")]`
unfoldable pub column_names : List Xml → List String
unfolding strip_brackets
column_names [] = []
column_names (c ∷ cs) = add (attribute "Name" c) (column_names cs)
  where
    add : Option String → List String → List String
    add none names = names
    add (some s) names = if truthy s then strip_brackets s ∷ names else names

module _ (lx : Lxml) where
  pub collect_columns : ColumnsByUsage → List Xml → ColumnsByUsage
  unfolding set_columns column_names
  collect_columns columns [] = columns
  collect_columns columns (group ∷ groups) =
      collect_columns
        (set_columns (attribute "Usage" group) (column_names (lx.findall "sp:Column" group))
          columns)
        groups

  module _ {F : Type 0} ⦃fl : Float F⦄ where
    missing_index_of : Option F → Xml → MissingIndex F
    unfolding collect_columns strip_brackets
    missing_index_of impact mi =
        let columns = collect_columns no_columns (lx.findall "sp:ColumnGroup" mi) in
        record {
          table = value_or "" (strip_brackets? (attribute "Table" mi));
          columns_equality = columns.equality;
          columns_inequality = columns.inequality;
          columns_include = columns.include;
          estimated_impact = impact;
        }

    unfoldable pub missing_indexes_of : List Xml → Outcome (List (MissingIndex F))
    unfolding missing_index_of
    missing_indexes_of [] = ok []
    missing_indexes_of (group ∷ groups) = do
      impact ← get_float lx "Impact" group
      rest ← missing_indexes_of groups
      ok (map (missing_index_of impact) (lx.findall "sp:MissingIndex" group) ++ rest)

    abbrev missing_indexes_in : Option Xml → Outcome (List (MissingIndex F))
    missing_indexes_in none = ok []
    missing_indexes_in (some x) = missing_indexes_of (lx.findall "sp:MissingIndexGroup" x)

    -- `_extract_missing_indexes`
    unfoldable pub extract_missing_indexes : Xml → Outcome (List (MissingIndex F))
    unfolding missing_indexes_of
    extract_missing_indexes query_plan = missing_indexes_in (lx.find "sp:MissingIndexes" query_plan)
