-- ===== src/Adapter/MissingIndexes/Columns.antt =====
-- The columns of a missing index beside the column groups of its element.
use query_smith.Prelude.{
  ◌∙◌, true, false, ap, String, List, [], ◌∷◌, ◌++◌, Option, none, some, ◌≡◌, ◌≢◌, refl, sym, ◌⊎◌,
  inl, inr, All, All-append, str_eq, eq_iff, Bool-cases,
}
use mathlib.Core.Option.{some-injective}
use mathlib.Core.List.{append-nil, append_assoc}
use query_smith.Adapter.Xml.{Xml, Lxml, attribute}
use query_smith.Adapter.MissingIndexes.{
  ColumnsByUsage, no_columns, set_columns, column_names, collect_columns,
}

-- The columns of the last group with the usage, or none without such a group.
pub data Columns (lx : Lxml) (usage : String) (groups : List Xml) (names : List String)
    : Type 0 where
  no_group :
      All (λ g. attribute "Usage" g ≢ some usage) groups
      → names ≡ []
      → Columns lx usage groups names
  last_group :
      (before : List Xml) (g : Xml) (behind : List Xml)
      → groups ≡ before ++ g ∷ behind
      → attribute "Usage" g ≡ some usage
      → All (λ h. attribute "Usage" h ≢ some usage) behind
      → names ≡ column_names (lx.findall "sp:Column" g)
      → Columns lx usage groups names

module _ (lx : Lxml) (usage : String) where
  Columns-kept :
      (groups : List Xml) (g : Xml) (names : List String)
      → attribute "Usage" g ≢ some usage
      → Columns lx usage groups names
      → Columns lx usage (groups ++ g ∷ []) names
  Columns-kept groups g names ne (no_group none_of e) =
      no_group (All-append (λ h. attribute "Usage" h ≢ some usage) groups (g ∷ []) none_of (ne, tt))
        e
  Columns-kept groups g names ne (last_group before l behind split is rest e) =
      last_group before l (behind ++ g ∷ []) (rw split (append_assoc before (l ∷ behind) (g ∷ [])))
        is (All-append (λ h. attribute "Usage" h ≢ some usage) behind (g ∷ []) rest (ne, tt)) e

  Columns-set :
      (groups : List Xml) (g : Xml)
      → attribute "Usage" g ≡ some usage
      → Columns lx usage (groups ++ g ∷ []) (column_names (lx.findall "sp:Column" g))
  Columns-set groups g is = last_group groups g [] refl is tt refl

  -- What one group does to the columns of a usage.
  abbrev Turns : Xml → List String → List String → Type 0
  Turns g names names' =
      ((attribute "Usage" g ≡ some usage) × (names' ≡ column_names (lx.findall "sp:Column" g)))
      ⊎ ((attribute "Usage" g ≢ some usage) × (names' ≡ names))

  Columns-Turns :
      (groups : List Xml) (g : Xml) (names names' : List String)
      → Turns g names names'
      → Columns lx usage groups names
      → Columns lx usage (groups ++ g ∷ []) names'
  Columns-Turns groups g names names' (inl (is, e)) c = rw e (Columns-set groups g is)
  Columns-Turns groups g names names' (inr (ne, e)) c = rw e (Columns-kept groups g names ne c)

module _ (lx : Lxml) where
  -- Each usage has the columns of its last group.
  pub record ByUsage (groups : List Xml) (columns : ColumnsByUsage) : Type 0 where
    pub equal : Columns lx "EQUALITY" groups columns.equality
    pub unequal : Columns lx "INEQUALITY" groups columns.inequality
    pub included : Columns lx "INCLUDE" groups columns.include

  abbrev TurnsAll : Xml → ColumnsByUsage → ColumnsByUsage → Type 0
  TurnsAll g c c' =
      Turns lx "EQUALITY" g c.equality c'.equality
      × Turns lx "INEQUALITY" g c.inequality c'.inequality
      × Turns lx "INCLUDE" g c.include c'.include

  set_columns-TurnsAll :
      (g : Xml) (c : ColumnsByUsage) (usage : Option String)
      → attribute "Usage" g ≡ usage
      → TurnsAll g c (set_columns usage (column_names (lx.findall "sp:Column" g)) c)
  unfolding set_columns
  set_columns-TurnsAll g c none e = (inr (λ h. cc, refl), inr (λ h. cc, refl), inr (λ h. cc, refl))
  set_columns-TurnsAll g c (some u) e = elim (Bool-cases (str_eq u "EQUALITY")) [
    | inl a ↦
        let same : u ≡ "EQUALITY" = (eq_iff u "EQUALITY").0 a in
        rw a (inl (e ∙ ap some same, refl), inr (λ h. cc, refl), inr (λ h. cc, refl))
    | inr a ↦ rw a (elim (Bool-cases (str_eq u "INEQUALITY")) [
      | inl b ↦
          let same : u ≡ "INEQUALITY" = (eq_iff u "INEQUALITY").0 b in
          rw b (inr (λ h. cc, refl), inl (e ∙ ap some same, refl), inr (λ h. cc, refl))
      | inr b ↦ rw b (elim (Bool-cases (str_eq u "INCLUDE")) [
        | inl d ↦
            let same : u ≡ "INCLUDE" = (eq_iff u "INCLUDE").0 d in
            rw d (inr (λ h. cc, refl), inr (λ h. cc, refl), inl (e ∙ ap some same, refl))
        | inr d ↦ rw d (
          inr (λ h. other "EQUALITY" a h, refl),
          inr (λ h. other "INEQUALITY" b h, refl),
          inr (λ h. other "INCLUDE" d h, refl),
        )
      ])
    ])
  ]
    where
      other : (k : String) → str_eq u k ≡ false → attribute "Usage" g ≡ some k → ⊥
      other k differs h =
          let same : u ≡ k = some-injective _ _ (sym e ∙ h) in
          let alike : str_eq u k ≡ true = (eq_iff u k).1 same in cc

  collect_columns-from :
      (before later : List Xml) (c : ColumnsByUsage)
      → ByUsage before c
      → ByUsage (before ++ later) (collect_columns lx c later)
  unfolding collect_columns
  collect_columns-from before [] c by = rw append-nil by
  collect_columns-from before (g ∷ later) c by =
      let names = column_names (lx.findall "sp:Column" g) in
      let c' = set_columns (attribute "Usage" g) names c in
      let (x, y, z) = set_columns-TurnsAll g c (attribute "Usage" g) refl in
      rw (← append_assoc before (g ∷ []) later) (
        collect_columns-from (before ++ g ∷ []) later c' (record {
          equal = Columns-Turns lx "EQUALITY" before g c.equality c'.equality x by.equal;
          unequal = Columns-Turns lx "INEQUALITY" before g c.inequality c'.inequality y by.unequal;
          included = Columns-Turns lx "INCLUDE" before g c.include c'.include z by.included;
        }))

  pub collect_columns-ByUsage :
      (groups : List Xml) → ByUsage groups (collect_columns lx no_columns groups)
  collect_columns-ByUsage groups =
      collect_columns-from [] groups no_columns (record {
        equal = no_group tt refl;
        unequal = no_group tt refl;
        included = no_group tt refl;
      })
