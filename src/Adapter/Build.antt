-- ===== src/Adapter/Build.antt =====
-- adapters/sqlserver/plan_xml_to_ir.py: `_build_operator_tree` and `parse_plan_xml`. The code first collects an
-- element's `RelOp`s and then builds them one after the other; here the walk that finds them
-- builds them on the way, so that the recursion is structural.
pub mod Laws
pub mod Inversion
pub mod Shown
mod Next
pub mod Order
pub mod Unique
pub mod Warnings
use query_smith.Prelude.{
  ℕ, suc, ◌+◌, String, Bool, true, false, List, [], ◌∷◌, ◌++◌, any, Option, none, some, str_eq,
  if◌then◌else◌,
}
use query_smith.Prelude.Int.{ℤ, pos}
use query_smith.Prelude.Outcome.{Outcome, ok, err, ◌>>=◌, ◌>>◌, value_error}
use query_smith.Text.{truthy}
use query_smith.Text.Numerals.{show_ℕ}
use query_smith.Float.{Float}
use query_smith.Ir.{
  Engine, PlanSource, ObjectType, OperatorType, WarningType, PlanMeta, Statement, OperatorInfo,
  Operator, Operators, node, operator_info, Warning, IrPlan,
}
use query_smith.Adapter.Xml.{
  Xml, element, comment, Nodes, Lxml, value_or, local_name, attribute, inside, list_of,
}
use query_smith.Adapter.OperatorMap.{
  map_operator_type, map_access_type, map_join_type, map_statement_type,
}
use query_smith.Adapter.Node.{BuildState, is_actual, build_node}
use query_smith.Adapter.Extract.{
  strip_brackets, strip_brackets?, direct_child_rel_ops, find_detail_wrapper, extract_object_ref,
  extract_predicates, extract_warnings,
}
use query_smith.Adapter.MissingIndexes.{extract_missing_indexes}
use query_smith.Adapter.Counters.{
  float_of, get_float, sum_actual_rows, max_actual_duration_ms, quotient,
}

module _ {F : Type 0} where
  abbrev pub entered : OperatorInfo F × BuildState → Option (OperatorInfo F) × BuildState
  entered (info, s) = (some info, s)

  abbrev pub append_operators : Operators F → Operators F → Operators F
  append_operators Operators.nil later = later
  append_operators (Operators.cons op ops) later = Operators.cons op (append_operators ops later)

  abbrev pub attach : Option (OperatorInfo F) → Operators F → Operators F → Operators F
  attach none beneath later = append_operators beneath later
  attach (some info) beneath later = Operators.cons (node info beneath) later

module _ (lx : Lxml) {F : Type 0} ⦃fl : Float F⦄ where
  -- the fields of a `RelOp`, or nothing for another element
  unfoldable pub enter :
      Option F → PlanSource → Xml → BuildState → Outcome (Option (OperatorInfo F) × BuildState)
  unfolding build_node
  enter total_cost plan_source x s = local_name x >>= λ name.
      (if str_eq name "RelOp"
        then (build_node lx total_cost plan_source x s >>= λ built. ok (entered built))
        else ok (none, s))

  unfoldable mutual
    unfolding enter

    pub build_inside : Option F → PlanSource → Xml → BuildState → Outcome (Operators F × BuildState)
    build_inside total_cost plan_source (element namespace name attrs nodes) s =
        build_nodes total_cost plan_source nodes s
    build_inside total_cost plan_source comment s = ok (Operators.nil, s)

    pub build_nodes :
        Option F → PlanSource → Nodes → BuildState → Outcome (Operators F × BuildState)
    build_nodes total_cost plan_source Nodes.nil s = ok (Operators.nil, s)
    build_nodes total_cost plan_source (Nodes.cons x xs) s = do
      here ← enter total_cost plan_source x s
      beneath ← build_inside total_cost plan_source x here.1
      later ← build_nodes total_cost plan_source xs beneath.1
      ok (attach here.0 beneath.0 later.0, later.1)

  -- `_build_operator_tree`
  unfoldable pub build_operator_tree :
      Option F → PlanSource → Xml → BuildState → Outcome (Operator F × BuildState)
  unfolding build_node build_inside
  build_operator_tree total_cost plan_source rel_op s = do
    built ← build_node lx total_cost plan_source rel_op s
    beneath ← build_inside total_cost plan_source rel_op built.1
    ok (node built.0 beneath.0, beneath.1)

-- The arguments of `parse_plan_xml` but for the text.
pub record ParseOptions : Type 0 where
  pub plan_source : PlanSource
  pub engine_version : Option String
  pub object_type : ObjectType
  pub object_name : Option String
  pub database_name : Option String
  pub captured_at : Option ℕ
  pub redact : Bool

-- `if x is None: raise ValueError(…)`
abbrev pub found {ℓ} : {A : Type ℓ} → String → Option A → Outcome A
found message none = err (value_error message)
found message (some a) = ok a

-- `_redact_literals`
abbrev redact_literals : String → String
redact_literals text = text

abbrev database_of : Option String → Option Xml → Option String
database_of (some name) object = some name
database_of none none = none
database_of none (some object) = strip_brackets? (attribute "Database" object)

abbrev pub with_grant : {F : Type 0} → Option ℤ → Operator F → Operator F
with_grant none op = op
with_grant (some kb) (node info children) =
    node (record info { memory_grant_kb = some kb }) children

module _ (lx : Lxml) (F : Type 0) ⦃fl : Float F⦄ where
  -- The memory grant of the plan, for the root.
  abbrev pub granted_memory : Option Xml → Outcome (Option ℤ)
  granted_memory none = ok none
  granted_memory (some grant) = elim (attribute "GrantedMemory" grant) [
    | none ↦ ok none
    | some s ↦ float_of lx s >>= λ (x : F). fl.to_int x >>= λ n. ok (some n)
  ]

module _ (lx : Lxml) {F : Type 0} ⦃fl : Float F⦄ where
  pub int_of : Option F → Outcome (Option ℤ)
  int_of none = ok none
  int_of (some x) = fl.to_int x >>= λ n. ok (some n)

  -- `parse_plan_xml` behind the three searches
  unfoldable pub plan_of : ParseOptions → Xml → Xml → Xml → Outcome (IrPlan F)
  unfolding build_operator_tree extract_missing_indexes int_of map_statement_type strip_brackets
  plan_of options stmt query_plan rel_op = do
    total_cost ← get_float lx "StatementSubTreeCost" stmt
    built ←
        build_operator_tree lx total_cost options.plan_source rel_op
          (record { next_id = 1; warnings = [] })
    grant ← granted_memory lx F (lx.find "sp:MemoryGrantInfo" query_plan)
    missing_indexes ← extract_missing_indexes lx query_plan
    let root = with_grant grant built.0
    let info = operator_info root
    let actual = is_actual options.plan_source
    let text = value_or "" (attribute "StatementText" stmt)
    rows ← int_of (if actual then info.actual_rows else none)
    ok (record {
      meta = record {
        engine = Engine.sqlserver;
        engine_version = options.engine_version;
        plan_source = options.plan_source;
        captured_at = options.captured_at;
        object_type = options.object_type;
        object_name = options.object_name;
        database_name =
            database_of options.database_name (lx.find ".//sp:Object[@Database]" query_plan);
      };
      statement = record {
        text = if options.redact then redact_literals text else text;
        statement_type = map_statement_type (value_or "" (attribute "StatementType" stmt));
        total_estimated_cost = total_cost;
        total_actual_duration_ms = if actual then info.actual_duration_ms else none;
        total_actual_rows = rows;
      };
      root_operator = root;
      warnings = built.1.warnings;
      missing_indexes = missing_indexes;
    })

  unfoldable pub parse_plan_xml : ParseOptions → String → Outcome (IrPlan F)
  unfolding plan_of
  parse_plan_xml options xml = do
    root ← lx.fromstring xml
    stmt ← found "No StmtSimple element found in plan XML" (lx.find ".//sp:StmtSimple" root)
    query_plan ← found "No QueryPlan element found in plan XML" (lx.find "sp:QueryPlan" stmt)
    rel_op ← found "No root RelOp element found in plan XML" (lx.find "sp:RelOp" query_plan)
    plan_of options stmt query_plan rel_op
