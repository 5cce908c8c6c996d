-- ===== src/Adapter/Extract.antt =====
-- The parts of adapters/sqlserver/plan_xml_to_ir.py that read one element.
pub mod Laws
use Prim.Native.Char.{code}
use query_smith.Prelude.{
  String, ◌<>◌, ◌||◌, List, [], ◌∷◌, ◌++◌, map, Option, none, some, str_eq, ◌==◌, if◌then◌else◌,
}
use query_smith.Prelude.Outcome.{Outcome, ok, ◌>>=◌, traverse}
use query_smith.Text.{truthy, strip_by, join, member}
use query_smith.Ir.{ObjectRef, WarningType, Warning}
use query_smith.Adapter.Xml.{
  Xml, element, comment, Nodes, nil, cons, Lxml, lookup, value_or, local_name, attributes,
  attribute, inside, list_of,
}
use query_smith.Adapter.OperatorMap.{warning_tag_map}

-- `s.strip("[]") if s is not None else None`
unfoldable pub strip_brackets : String → String
unfolding strip_by
strip_brackets = strip_by (λ c. code c == 91 || code c == 93)

abbrev pub strip_brackets? : Option String → Option String
strip_brackets? none = none
strip_brackets? (some s) = some (strip_brackets s)

-- `_direct_child_rel_ops`, of the nodes inside an element
unfoldable mutual
  pub direct_child_rel_ops : Xml → Outcome (List Xml)
  direct_child_rel_ops (element namespace name attrs nodes) = direct_rel_ops nodes
  direct_child_rel_ops comment = ok []

  pub direct_rel_ops : Nodes → Outcome (List Xml)
  direct_rel_ops nil = ok []
  direct_rel_ops (cons x xs) =
      let beneath = direct_child_rel_ops x in
      let later = direct_rel_ops xs in
      do
        name ← local_name x
        here ← if str_eq name "RelOp" then ok (x ∷ []) else beneath
        rest ← later
        ok (here ++ rest)

abbrev pub non_wrapper_tags : List String
non_wrapper_tags = "OutputList" ∷ "RunTimeInformation" ∷ "Warnings" ∷ "RelOp" ∷ []

-- `_find_detail_wrapper`
unfoldable pub find_detail_wrapper : List Xml → Outcome (Option Xml)
unfolding member
find_detail_wrapper [] = ok none
find_detail_wrapper (child ∷ children) =
    let later = find_detail_wrapper children in
    local_name child >>= λ name. if member name non_wrapper_tags then later else ok (some child)

-- `f"{k}={v}"`
abbrev attribute_text : String × String → String
attribute_text (key, value) = key <> "=" <> value

-- `_warning_detail`, where `tag` is the element's local name
abbrev warning_detail : String → List (String × String) → String
warning_detail tag [] = tag
warning_detail tag (a ∷ attrs) = join ", " (map attribute_text (a ∷ attrs))

abbrev pub warning_of : String → Xml → Outcome Warning
warning_of operator_id child = do
  tag ← local_name child
  ok (record {
    type = value_or WarningType.other (lookup tag warning_tag_map);
    detail = warning_detail tag (attributes child);
    operator_id = some operator_id;
    severity = none;
  })

abbrev pub extend_unique : List String → Option String → List String
extend_unique predicates none = predicates
extend_unique predicates (some text) =
    if truthy text
    then (if member text predicates then predicates else predicates ++ text ∷ [])
    else predicates

unfoldable pub collect_predicates : List String → List Xml → List String
unfolding member
collect_predicates predicates [] = predicates
collect_predicates predicates (scalar_op ∷ scalar_ops) =
    collect_predicates (extend_unique predicates (attribute "ScalarString" scalar_op)) scalar_ops

module _ (lx : Lxml) where
  -- `_extract_object_ref`
  unfoldable pub extract_object_ref : Option Xml → Option ObjectRef
  unfolding strip_brackets
  extract_object_ref none = none
  extract_object_ref (some wrapper) = elim (lx.find ".//sp:Object" wrapper) [
    | none ↦ none
    | some object ↦ some (record {
      schema = strip_brackets? (attribute "Schema" object);
      table = strip_brackets? (attribute "Table" object);
      index = strip_brackets? (attribute "Index" object);
    })
  ]

  -- `_extract_predicates`
  unfoldable pub extract_predicates : Option Xml → List String
  unfolding collect_predicates
  extract_predicates none = []
  extract_predicates (some wrapper) =
      collect_predicates [] (lx.findall ".//sp:ScalarOperator" wrapper)

  abbrev pub warnings_in : String → Option Xml → Outcome (List Warning)
  warnings_in operator_id none = ok []
  warnings_in operator_id (some warnings) =
      traverse (warning_of operator_id) (list_of (inside warnings))

  -- `_extract_warnings`
  unfoldable pub extract_warnings : Xml → String → Outcome (List Warning)
  extract_warnings rel_op operator_id = warnings_in operator_id (lx.find "sp:Warnings" rel_op)
