-- ===== src/Adapter/Sample.antt =====
-- A document for the tests, and a search that knows the paths of the code by their last name.
use query_smith.Prelude.{
  String, false, List, [], ◌∷◌, Option, none, some, str_eq, ◌≡◌, refl, if◌then◌else◌,
}
use query_smith.Prelude.Outcome.{ok, err, xml_syntax_error}
use query_smith.Float.Sample.{Cents, cents_float}
use query_smith.Text.Numerals.{show_ℕ}
use query_smith.Ir.Sample.{plan}
use query_smith.Adapter.Extract.{
  strip_brackets, direct_child_rel_ops, find_detail_wrapper, extract_warnings,
}
use query_smith.Adapter.OperatorMap.{map_access_type}
use query_smith.Adapter.Counters.{sum_actual_rows, max_actual_duration_ms}
use query_smith.Adapter.MissingIndexes.{
  extract_missing_indexes, missing_indexes_of, set_columns, column_names,
}
use query_smith.Ir.{PlanSource, ObjectType, IrPlan}
use query_smith.Adapter.Xml.{Xml, element, comment, Nodes, nil, cons, Lxml, lookup, value_or}
use query_smith.Adapter.Build.{ParseOptions, parse_plan_xml}

abbrev pub elem : String → List (String × String) → List Xml → Xml
elem name attrs children = element "sp" name attrs (of_list children)
  where
    of_list : List Xml → Nodes
    of_list [] = nil
    of_list (x ∷ xs) = cons x (of_list xs)

abbrev first {ℓ} : {A : Type ℓ} → List A → Option A
first [] = none
first (x ∷ xs) = some x

abbrev named : String → Nodes → List Xml
named name nil = []
named name (cons (element ns tag attrs inside) xs) =
    let rest = named name xs in if str_eq tag name then element ns tag attrs inside ∷ rest else rest
named name (cons comment xs) = named name xs

abbrev children_named : String → Xml → List Xml
children_named name (element ns tag attrs inside) = named name inside
children_named name comment = []

abbrev names : List (String × String)
names =
    (".//sp:StmtSimple", "StmtSimple")
    ∷ ("sp:QueryPlan", "QueryPlan")
    ∷ ("sp:RelOp", "RelOp")
    ∷ ("sp:Warnings", "Warnings")
    ∷ ("sp:RunTimeCountersPerThread", "RunTimeCountersPerThread")
    ∷ ("sp:MissingIndexes", "MissingIndexes")
    ∷ ("sp:MissingIndexGroup", "MissingIndexGroup")
    ∷ ("sp:MissingIndex", "MissingIndex")
    ∷ ("sp:ColumnGroup", "ColumnGroup")
    ∷ ("sp:Column", "Column")
    ∷ []

abbrev pub spill : Xml
spill = elem "SpillToTempDb" (("SpillLevel", "1") ∷ []) []

abbrev pub spills : Xml
spills = elem "Warnings" [] (spill ∷ [])

-- an inner scan that spills, inside a wrapper, below a join without an id of its own
abbrev pub scan : Xml
scan =
    elem "RelOp" (("NodeId", "7") ∷ ("PhysicalOp", "Table Scan") ∷ ("EstimateRows", "5") ∷ [])
      (spills ∷ elem "TableScan" [] [] ∷ [])

abbrev pub join : Xml
join =
    elem "RelOp" (("PhysicalOp", "Hash Match") ∷ ("LogicalOp", "Inner Join") ∷ [])
      (elem "Hash" [] (elem "ProbeResidual" [] [] ∷ scan ∷ []) ∷ [])

-- the same with an id
abbrev pub numbered_join : Xml
numbered_join =
    elem "RelOp" (("NodeId", "3") ∷ ("PhysicalOp", "Hash Match") ∷ ("LogicalOp", "Inner Join") ∷ [])
      (elem "Hash" [] (elem "ProbeResidual" [] [] ∷ scan ∷ []) ∷ [])

abbrev columns : String → String → Xml
columns usage name =
    elem "ColumnGroup" (("Usage", usage) ∷ []) (elem "Column" (("Name", name) ∷ []) [] ∷ [])

-- an index on one column, with another included
abbrev pub wanted : Xml
wanted =
    elem "MissingIndex" (("Table", "[Orders]") ∷ [])
      (columns "EQUALITY" "[CustomerId]" ∷ columns "INCLUDE" "[Total]" ∷ [])

abbrev pub wanted_group : Xml
wanted_group = elem "MissingIndexGroup" (("Impact", "90") ∷ []) (wanted ∷ [])

abbrev pub missing : Xml
missing = elem "MissingIndexes" [] (wanted_group ∷ [])

abbrev pub around : List Xml → Xml
around inside =
    elem "ShowPlanXML" []
      (elem "StmtSimple" (("StatementType", "SELECT") ∷ []) (elem "QueryPlan" [] inside ∷ []) ∷ [])

abbrev pub document : Xml → Xml
document root = around (root ∷ [])

abbrev pub lxml : Lxml
lxml = record {
  fromstring = λ text.
      if str_eq text "plan"
      then ok (document join)
      else if str_eq text "numbered"
      then ok (document numbered_join)
      else if str_eq text "indexed"
      then ok (around (missing ∷ scan ∷ []))
      else err (xml_syntax_error "no plan");
  find = λ path x. first (children_named (value_or "" (lookup path names)) x);
  findall = λ path x. children_named (value_or "" (lookup path names)) x;
}

abbrev pub options : ParseOptions
options = record {
  plan_source = PlanSource.actual;
  engine_version = none;
  object_type = ObjectType.adhoc_query;
  object_name = none;
  database_name = some "Sales";
  captured_at = none;
  redact = false;
}

unfoldable pub indexed_plan : IrPlan Cents
unfolding parse_plan_xml map_access_type find_detail_wrapper sum_actual_rows max_actual_duration_ms
    extract_warnings direct_child_rel_ops show_ℕ extract_missing_indexes missing_indexes_of
    set_columns column_names strip_brackets
indexed_plan = elim (parse_plan_xml lxml options "indexed") [ ok p ↦ p | err e ↦ plan ]

pub indexed_runs : parse_plan_xml lxml options "indexed" ≡ ok indexed_plan
unfolding indexed_plan
indexed_runs = refl
