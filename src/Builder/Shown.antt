-- ===== src/Builder/Shown.antt =====
-- The columns of the statement that a select query runs.
use pureq.Query.{
  Answer, ◌>>=◌, Expression, column, Column, named, computed, Columns, all_columns, listed, Join,
  SelectStatement,
}
use pureq.Query.Done.{IsDone, IsDone-imp}
use pureq.Builder.{ColumnPolicy, Table, QueryContext, Constants, SelectBuilder}
use pureq.Builder.Security.{apply_column_security}
use pureq.Builder.Pushdown.{table_names, push_down_in, apply_policy_pushdown}
use pureq.Builder.Prepare.{columns_of, joined_columns, expanded, expand_columns}
use pureq.Builder.Passes.{
  with_columns, rls_base, rls_joins, column_base, column_joins, push_down-IsDone,
}
use pureq.Builder.Hidden.{IsKnown, IsVisible, OfListed}
use pureq.Builder.Visible.{IsKnownIn, IsVisibleIn, columns-IsKnown, All-named, tables-IsDone}
use pureq.Query.Names.{includes}
use pureq.Builder.Aliases.{HaveDistinctNames, IsWellJoined, alias_of_table-own}
use pureq.Builder.Kept.{IsIn, IsInColumns, IsIn-All, both_of-IsDone, tables-kept}
use pureq.Builder.Visible.{IsKnownEntry, IsVisibleEntry}
use pureq.Builder.Hidden.{OfListed-imp}
use pureq.Builder.Pushdown.{alias_of_table}
use pureq.Prelude.{
  All-zip, true, none, arith, Bool-cases, inl, inr, ◌==◌, ◌≡◌, sym, subst, Option, some, List, [],
  ◌∷◌, ◌++◌, map, All, All-map, All-append,
}
use pureq.Prelude.Text.{Text, codes_key}

for_names : (P : Text → Type 0) → ((name : Text) → P name) → (names : List Text) → All P names
for_names P h [] = tt
for_names P h (name ∷ names) = (h name, for_names P h names)

pub at_name :
    (P : Text → Type 0) (names : List Text) (name : Text)
    → All P names
    → includes names name ≡ true
    → P name
at_name P [] name h i = absurd (cc)
at_name P (n ∷ names) name h i = elim (Bool-cases (n == name)) [
  | inl p ↦ subst P ((codes_key.same_iff n name).0 p) h.0
  | inr p ↦ at_name P names name h.1 (ground (arith))
]

module _ {V : Type 0} where
  computed_columns :
      (P : Column V → Type 0)
      → ((e : Expression V) → P (computed e))
      → (alias : Text) (table : Table V) → All P (columns_of alias table)
  computed_columns P h alias table = each table.columns
    where
      each :
          (m : List (Text × Option ColumnPolicy))
          → All P (map (λ e. computed (column e.0 (some alias))) m)
      each [] = tt
      each (e ∷ m) = (h _, each m)

  anything :
      (es : List (Text × Table V)) (P : Text × Table V → Type 0)
      → ((e : Text × Table V) → P e)
      → All P es
  anything [] P h = tt
  anything (e ∷ es) P h = (h e, anything es P h)

  no_tables :
      (es : List (Text × Table V))
      → All (λ e. includes [] e.1.name ≡ true) es
      → (P : Text × Table V → Type 0) → All P es
  no_tables [] i P = tt
  no_tables (e ∷ es) i P = absurd (cc)

  computed_joined :
      (P : Column V → Type 0)
      → ((e : Expression V) → P (computed e))
      → (joined_tables : List (Text × Table V)) → All P (joined_columns joined_tables)
  computed_joined P h [] = tt
  computed_joined P h ((alias, table) ∷ es) =
      All-append P (columns_of alias table) (joined_columns es) (computed_columns P h alias table)
        (computed_joined P h es)

  -- Every name that a query asks for is a column of each of its tables.
  abbrev pub IsRequestKnown : Table V → List (Text × Table V) → Columns V → Type 0
  IsRequestKnown table joined_tables all_columns = Unit
  IsRequestKnown table joined_tables (listed rs) =
      All (λ r. IsKnown table r × All (λ e. IsKnown e.1 r) joined_tables) rs

  -- What each of the tables of a query lets the scopes see.
  abbrev pub IsShown : Table V → List (Text × Table V) → List Text → Column V → Type 0
  IsShown table joined_tables user_scopes r =
      IsVisible table table.name user_scopes r
      × All (λ e. IsVisible e.1 e.0 user_scopes r) joined_tables

  -- The columns that a query asks for, `"*"` by the names of the table's columns.
  abbrev pub requested : Table V → Columns V → List (Column V)
  requested table all_columns = map (λ e. named e.0) table.columns
  requested table (listed rs) = rs

  -- What holds of every table holds of the one that an alias is found for.
  entry_of :
      (P : Option (Text × Table V) → Type 0)
      → P none
      → (es : List (Text × Table V)) → All (λ e. P (some e)) es
      → (name : Text) → P (alias_of_table name es)
  unfolding alias_of_table
  entry_of P z [] h name = z
  entry_of P z ((alias, table) ∷ es) h name = elim (Bool-cases (table.name == name)) [
    | inl p ↦ rw p h.0
    | inr p ↦ rw p (entry_of P z es h.1 name)
  ]

  known_names :
      (es : List (Text × Table V)) (names : List Text) (r : Column V)
      → All (λ e. IsKnown e.1 r) es
      → IsKnownIn es names r
  known_names es names r h = for_names _ (entry_of (λ o. IsKnownEntry es o r) tt es h) names

  visible_names :
      (es : List (Text × Table V)) (user_scopes names : List Text) (r : Column V)
      → All (λ e. IsVisible e.1 e.0 user_scopes r) es
      → IsVisibleIn es user_scopes names r
  visible_names es user_scopes names r h =
      for_names _ (entry_of (λ o. IsVisibleEntry es user_scopes o r) tt es h) names

  -- With one alias for a table that is found is what is visible to every joined table.
  IsVisible-tables :
      (es : List (Text × Table V)) (user_scopes names : List Text) (r : Column V)
      → HaveDistinctNames es
      → All (λ e. includes names e.1.name ≡ true) es
      → IsVisibleIn es user_scopes names r
      → All (λ e. IsVisible e.1 e.0 user_scopes r) es
  IsVisible-tables es user_scopes names r d i v =
      All-zip
        (λ e own here.
          subst (λ o. IsVisibleEntry es user_scopes o r) own (at_name _ names e.1.name v here))
        es (alias_of_table-own es d) i

  -- The columns that stay are shown, and of those that were asked for all that are shown stay.
  abbrev pub AreShown :
      Table V → List (Text × Table V) → List Text → List (Column V) → Columns V → Type 0
  AreShown table joined_tables user_scopes asked columns =
      OfListed (IsShown table joined_tables user_scopes) columns
      × ((r : Column V)
          → IsIn r asked
          → IsShown table joined_tables user_scopes r
          → IsInColumns r columns)

  module _ (c : Constants V) (context : QueryContext V)
      (joined_tables : List (Text × Table V)) where
    listed-AreShown :
        (table : Table V) (names : List Text) (rs : List (Column V))
        → HaveDistinctNames joined_tables
        → All (λ e. includes names e.1.name ≡ true) joined_tables
        → All (λ r. IsKnown table r × All (λ e. IsKnown e.1 r) joined_tables) rs
        → IsDone (AreShown table joined_tables context.scopes rs) (
            column_base c context (some table) (listed rs)
            >>= column_joins c context joined_tables names)
    listed-AreShown table names rs d i h =
        let shown_in : Column V → Type 0 = λ r.
          IsVisible table table.name context.scopes r
          × IsVisibleIn joined_tables context.scopes names r in
        let kept : Columns V → Type 0 = λ columns.
          (r : Column V)
          → IsIn r rs
          → IsShown table joined_tables context.scopes r
          → IsInColumns r columns in
        IsDone-imp (λ columns. OfListed shown_in columns × kept columns) _ _
          (λ columns q.
            let own =
              OfListed-imp shown_in (IsShown table joined_tables context.scopes)
                (λ r v. (v.0, IsVisible-tables joined_tables context.scopes names r d i v.1))
                columns q.0 in
            (own, q.1))
          (both_of-IsDone (OfListed shown_in) kept _
            (tables-IsDone joined_tables c context table names rs
              (All-map (λ r k. (k.0, known_names joined_tables names r k.1)) rs h))
            λ columns e r here shown.
              let known = IsIn-All _ r rs h here in
              tables-kept c context joined_tables r table names rs columns known.0
                (known_names joined_tables names r known.1) shown.0
                (visible_names joined_tables context.scopes names r shown.1) here e)

    columns-AreShown :
        (table : Table V) (joins : List (Join V)) (columns : Columns V)
        → HaveDistinctNames joined_tables
        → All (λ e. includes (table_names joins) e.1.name ≡ true) joined_tables
        → IsRequestKnown table joined_tables columns
        → IsDone
            (AreShown table joined_tables context.scopes
              (requested table (expanded (some table) joined_tables joins columns)))
            (column_base c context (some table) (expanded (some table) joined_tables joins columns)
              >>= column_joins c context joined_tables (table_names joins))
    unfolding expanded apply_column_security
    columns-AreShown table [] all_columns d i h =
        let none_joined = no_tables joined_tables i in
        listed-AreShown table [] (map (λ e. named e.0) table.columns) d i (
          All-named _ table.columns (
            All-map (λ e k. (k, none_joined (λ o. IsKnown o.1 (named e.0)))) table.columns
              (columns-IsKnown table.columns)))
    columns-AreShown table (j ∷ js) all_columns d i h =
        let known : Column V → Type 0 =
          λ r. IsKnown table r × All (λ e. IsKnown e.1 r) joined_tables in
        let all : (e : Expression V) → known (computed e) =
          λ e. (tt, anything joined_tables (λ o. IsKnown o.1 (computed e)) (λ o. tt)) in
        listed-AreShown table (table_names (j ∷ js))
          (columns_of table.name table ++ joined_columns joined_tables) d i
          (All-append known (columns_of table.name table) (joined_columns joined_tables)
            (computed_columns known all table.name table) (computed_joined known all joined_tables))
    columns-AreShown table [] (listed rs) d i h = listed-AreShown table [] rs d i h
    columns-AreShown table (j ∷ js) (listed rs) d i h =
        listed-AreShown table (table_names (j ∷ js)) rs d i h

module _ {V N : Type 0} where
  -- The columns that a builder's query asks for are known to its tables, and each that it joins stands
  -- under one alias.
  abbrev pub IsReady : Table V → SelectBuilder V N → Type 0
  IsReady table b = IsRequestKnown table b.joined_tables b.statement.columns × IsWellJoined b

  abbrev pub ShowsColumns : QueryContext V → Table V → SelectBuilder V N → Columns V → Type 0
  ShowsColumns context table b = AreShown table b.joined_tables context.scopes (
      requested table (expanded (some table) b.joined_tables b.statement.joins b.statement.columns))

  -- The row condition and the joins of the statement that runs.
  abbrev pub filtered : QueryContext V → Table V → SelectBuilder V N → SelectStatement V N
  filtered context table b =
      rls_joins context b.joined_tables (table_names b.statement.joins)
        (rls_base context (some table) (expand_columns b).statement)

module _ {V N : Type 0} (c : Constants V) (context : QueryContext V) where
  pub pushdown-IsDone :
      (Q : SelectStatement V N → Type 0) (b : SelectBuilder V N) (table : Table V)
      → b.table_obj ≡ some table
      → b.context ≡ some context
      → IsReady table b
      → ((columns : Columns V)
          → ShowsColumns context table b columns
          → Q (with_columns columns (filtered context table b)))
      → IsDone Q (apply_policy_pushdown c (expand_columns b))
  unfolding apply_policy_pushdown
  pushdown-IsDone Q b table t k h q =
      subst (λ o. IsDone Q (push_down_in c o (expand_columns b))) (sym k)
        (push_down-IsDone c context Q (expand_columns b) (
          subst (λ o. IsDone (Result o) (Passed o)) (sym t)
            (IsDone-imp (ShowsColumns context table b) _ (Passed (some table)) q (
              columns-AreShown c context b.joined_tables table b.statement.joins b.statement.columns
                h.1.1 h.1.2 h.0))))
    where
      names : List Text
      names = table_names b.statement.joins

      Result : Option (Table V) → Columns V → Type 0
      Result o columns = Q (
          with_columns columns (
            rls_joins context b.joined_tables names
              (rls_base context o (expand_columns b).statement)))

      Passed : Option (Table V) → Answer (Columns V)
      Passed o =
          column_base c context o (expanded o b.joined_tables b.statement.joins b.statement.columns)
          >>= column_joins c context b.joined_tables names
