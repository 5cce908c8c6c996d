-- ===== src/Adapter/OperatorMap/Laws.antt =====
-- The tables of adapters/sqlserver/operator_map.py, compared with each other.
use query_smith.Prelude.{
  String, Bool, Option, none, some, ◌≡◌, inl, inr, arith, str_eq, Bool-cases, eq_iff, if◌then◌else◌,
}
use query_smith.Text.{member}
use query_smith.Ir.{OperatorType, JoinType}
use query_smith.Adapter.Xml.{lookup, value_or}
use query_smith.Adapter.OperatorMap.{
  map_operator_type, map_join_type, hash_match_logical_op_map, hash_join_logical_ops,
}

-- The kind of join that an operator's type names.
abbrev pub join_of : OperatorType → Option JoinType
join_of OperatorType.join_nested_loop = some JoinType.nested_loop
join_of OperatorType.join_hash = some JoinType.hash
join_of OperatorType.join_merge = some JoinType.merge
join_of _ = none

join_of-hash :
    (logical_op : String)
    → join_of (value_or OperatorType.other (lookup logical_op hash_match_logical_op_map))
      ≡ (if member logical_op hash_join_logical_ops then some JoinType.hash else none)
unfolding member
join_of-hash logical_op = ground arith

-- For every pair of operator names, lookup or not, the kind of join that the operator's type names
-- is the join type that the operator gets.
pub join_of-map_operator_type :
    (physical_op logical_op : String) (is_lookup : Bool)
    → join_of (map_operator_type physical_op logical_op is_lookup)
      ≡ map_join_type physical_op logical_op
unfolding map_operator_type map_join_type member
join_of-map_operator_type physical_op logical_op is_lookup =
    elim (Bool-cases (str_eq physical_op "Nested Loops")) [
      | inl e ↦ let same : physical_op ≡ "Nested Loops" = (eq_iff _ _).0 e in rw same (ground arith)
      | inr e ↦ elim (Bool-cases (str_eq physical_op "Merge Join")) [
        | inl f ↦ let same : physical_op ≡ "Merge Join" = (eq_iff _ _).0 f in rw same (ground arith)
        | inr f ↦ elim (Bool-cases (str_eq physical_op "Hash Match")) [
          | inl g ↦
              let same : physical_op ≡ "Hash Match" = (eq_iff _ _).0 g in
              rw same (ground (arith, join_of-hash logical_op))
          | inr g ↦ rw (e, f, g) (ground arith)
        ]
      ]
    ]
