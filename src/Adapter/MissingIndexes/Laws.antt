-- ===== src/Adapter/MissingIndexes/Laws.antt =====
-- The missing indexes of a plan beside the elements of its document.
use query_smith.Prelude.{
  ℕ, suc, String, List, [], ◌∷◌, ◌++◌, map, Option, none, some, ◌≡◌, refl, sym, inl, inr,
  Any-append_left, Any-append_right,
}
use mathlib.Core.Path.{subst}
use query_smith.Prelude.Collect.{In}
use query_smith.Prelude.Pairs.{Pairs, Pairs-In}
use query_smith.Prelude.Outcome.{ok, ok-injective, >>=-eq-ok}
use query_smith.Float.{Float}
use query_smith.Ir.{MissingIndex, IrPlan}
use query_smith.Adapter.Xml.{Xml, Lxml, value_or, attribute}
use query_smith.Adapter.Extract.{strip_brackets?}
use query_smith.Adapter.Counters.{get_float}
use query_smith.Adapter.MissingIndexes.Columns.{Columns, collect_columns-ByUsage}
use query_smith.Adapter.Build.{ParseOptions, parse_plan_xml}
use query_smith.Adapter.Build.Inversion.{Parsed, parse_plan_xml-Parsed}
use query_smith.Adapter.MissingIndexes.{
  missing_index_of, missing_indexes_of, missing_indexes_in, extract_missing_indexes,
}

module _ (lx : Lxml) where
  -- The groups of a query plan.
  abbrev pub groups_of : Option Xml → List Xml
  groups_of none = []
  groups_of (some x) = lx.findall "sp:MissingIndexGroup" x

  module _ {F : Type 0} ⦃fl : Float F⦄ where
    -- The index that an element asks for: its table, its columns by usage and its group's impact.
    pub record Asks (impact : Option F) (mi : Xml) (index : MissingIndex F) : Type 0 where
      pub table : index.table ≡ value_or "" (strip_brackets? (attribute "Table" mi))
      pub equal : Columns lx "EQUALITY" (lx.findall "sp:ColumnGroup" mi) index.columns_equality
      pub unequal :
          Columns lx "INEQUALITY" (lx.findall "sp:ColumnGroup" mi) index.columns_inequality
      pub included : Columns lx "INCLUDE" (lx.findall "sp:ColumnGroup" mi) index.columns_include
      pub impact_of : index.estimated_impact ≡ impact

    -- The groups' indexes, one for each element, in document order.
    abbrev pub AsksOf : List Xml → List (MissingIndex F) → Type 0
    AsksOf [] indexes = indexes ≡ []
    AsksOf (group ∷ groups) indexes =
        (impact : Option F) × (here : List (MissingIndex F)) × (later : List (MissingIndex F))
        × (get_float lx "Impact" group ≡ ok impact)
        × Pairs (λ _. Asks impact) 0 (lx.findall "sp:MissingIndex" group) here
        × AsksOf groups later
        × (indexes ≡ here ++ later)

    missing_index_of-Asks :
        (impact : Option F) (mi : Xml) → Asks impact mi (missing_index_of lx impact mi)
    unfolding missing_index_of
    missing_index_of-Asks impact mi =
        let by = collect_columns-ByUsage lx (lx.findall "sp:ColumnGroup" mi) in
        record {
          table = refl;
          equal = by.equal;
          unequal = by.unequal;
          included = by.included;
          impact_of = refl;
        }

    map-Asks :
        (impact : Option F) (i : ℕ) (mis : List Xml)
        → Pairs (λ _. Asks impact) i mis (map (missing_index_of lx impact) mis)
    map-Asks impact i [] = tt
    map-Asks impact i (mi ∷ mis) = (missing_index_of-Asks impact mi, map-Asks impact (suc i) mis)

    missing_indexes_of-AsksOf :
        (groups : List Xml) (indexes : List (MissingIndex F))
        → missing_indexes_of lx groups ≡ ok indexes
        → AsksOf groups indexes
    unfolding missing_indexes_of
    missing_indexes_of-AsksOf [] indexes e = sym (ok-injective e)
    missing_indexes_of-AsksOf (group ∷ groups) indexes e =
        let (impact, read, e') = >>=-eq-ok (get_float lx "Impact" group) _ e in
        let (later, rest, e'') = >>=-eq-ok (missing_indexes_of lx groups) _ e' in
        (
          impact,
          map (missing_index_of lx impact) (lx.findall "sp:MissingIndex" group),
          later,
          read,
          map-Asks impact 0 (lx.findall "sp:MissingIndex" group),
          missing_indexes_of-AsksOf groups later rest,
          sym (ok-injective e''),
        )

    missing_indexes_in-AsksOf :
        (o : Option Xml) (indexes : List (MissingIndex F))
        → missing_indexes_in lx o ≡ ok indexes
        → AsksOf (groups_of o) indexes
    missing_indexes_in-AsksOf none indexes e = sym (ok-injective e)
    missing_indexes_in-AsksOf (some x) indexes e = missing_indexes_of-AsksOf _ indexes e

    extract_missing_indexes-AsksOf :
        (query_plan : Xml) (indexes : List (MissingIndex F))
        → extract_missing_indexes lx query_plan ≡ ok indexes
        → AsksOf (groups_of (lx.find "sp:MissingIndexes" query_plan)) indexes
    unfolding extract_missing_indexes
    extract_missing_indexes-AsksOf query_plan indexes e =
        missing_indexes_in-AsksOf (lx.find "sp:MissingIndexes" query_plan) indexes e

    -- When `parse_plan_xml` returns, the plan has one missing index for each MissingIndex element of
    -- the query plan's groups, in document order, with the element's table, the impact of its group,
    -- and for each of the three usages the columns of the last column group with that usage, or none
    -- without such a group.
    pub parse_plan_xml-AsksOf :
        (options : ParseOptions) (xml : String) (plan : IrPlan F)
        → parse_plan_xml lx options xml ≡ ok plan
        → (parsed : Parsed lx options xml plan) × AsksOf
            (groups_of (lx.find "sp:MissingIndexes" parsed.query_plan))
            plan.missing_indexes
    parse_plan_xml-AsksOf options xml plan e =
        let parsed = parse_plan_xml-Parsed lx options xml plan e in
        (
          parsed,
          extract_missing_indexes-AsksOf parsed.query_plan plan.missing_indexes parsed.tree.listed,
        )

    -- An element of the query plan's groups is asked for in the plan.
    pub AsksOf-In :
        (groups : List Xml) (indexes : List (MissingIndex F)) (group mi : Xml)
        → AsksOf groups indexes
        → In group groups
        → In mi (lx.findall "sp:MissingIndex" group)
        → (impact : Option F) × (index : MissingIndex F) × (get_float lx "Impact" group ≡ ok impact)
          × Asks impact mi index
          × In index indexes
    AsksOf-In [] indexes group mi h m n = absurd m
    AsksOf-In (g ∷ groups) indexes group mi (impact, here, later, read, asks, others, same) m n =
        elim m [
          | inl at ↦
              let (index, within, asked) =
                Pairs-In (Asks impact) 0 (lx.findall "sp:MissingIndex" g) here mi asks
                  (subst (λ x. In mi (lx.findall "sp:MissingIndex" x)) (sym at) n) in
              (
                impact,
                index,
                subst (λ x. get_float lx "Impact" x ≡ ok impact) at read,
                asked,
                rw same (Any-append_left (λ x. x ≡ index) here later within),
              )
          | inr below ↦
              let (i, index, read', asked, within) =
                AsksOf-In groups later group mi others below n in
              (
                i,
                index,
                read',
                asked,
                rw same (Any-append_right (λ x. x ≡ index) here later within),
              )
        ]
