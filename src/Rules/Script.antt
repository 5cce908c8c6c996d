-- ===== src/Rules/Script.antt =====
-- `_missing_index_script` of rules/engine.py.
use query_smith.Prelude.{
  String, ◌<>◌, List, [], ◌∷◌, ◌++◌, map, ◌≡◌, refl, is_empty, if◌then◌else◌, none,
}
use query_smith.Text.{join}
use query_smith.Ir.{MissingIndex}

-- f"[{c}]"
abbrev pub bracketed : String → String
bracketed c = "[" <> c <> "]"

abbrev pub review_note : String
review_note =
    "-- Review before running: table name is not schema-qualified (not tracked in the IR), verify write-cost tradeoff, and check for an existing similar index."

-- `lines[-1] += ";"`
abbrev end_last : List String → List String
end_last [] = []
end_last (line ∷ []) = (line <> ";") ∷ []
end_last (line ∷ next ∷ lines) = line ∷ end_last (next ∷ lines)

module _ {F : Type 0} (mi : MissingIndex F) where
  abbrev pub key_columns : List String
  key_columns = mi.columns_equality ++ mi.columns_inequality

  key_clause : String
  unfolding join
  key_clause =
      if is_empty key_columns
      then "<no key columns reported>"
      else join ", " (map bracketed key_columns)

  index_name : String
  unfolding join
  index_name =
      if is_empty key_columns then "IX_" <> mi.table else "IX_" <> join "_" (mi.table ∷ key_columns)

  statement_lines : List String
  unfolding key_clause index_name join
  statement_lines =
      ("CREATE NONCLUSTERED INDEX [" <> index_name <> "]")
      ∷ ("    ON [" <> mi.table <> "] (" <> key_clause <> ")")
      ∷ (if is_empty mi.columns_include
          then []
          else ("    INCLUDE (" <> join ", " (map bracketed mi.columns_include) <> ")") ∷ [])

  unfoldable pub missing_index_script : String
  unfolding statement_lines join
  missing_index_script = join "\n" (end_last statement_lines ++ review_note ∷ [])

script_test :
    missing_index_script {F = String} (record {
      table = "Orders";
      columns_equality = "Status" ∷ [];
      columns_inequality = "Total" ∷ [];
      columns_include = "Id" ∷ [];
      estimated_impact = none;
    })
    ≡ "CREATE NONCLUSTERED INDEX [IX_Orders_Status_Total]\n    ON [Orders] ([Status], [Total])\n    INCLUDE ([Id]);\n"
      <> review_note
unfolding missing_index_script
script_test = refl
