-- ===== src/Builder/Prepare.antt =====
-- What the builders' `execute` does before the driver is called: the statement that is compiled.
use pureq.Query.{
  Language, missing_table, wrong_user, Answer, done, refused, ◌>>=◌, ◌>>◌, check, Literal, one,
  many, Expression, column, Column, computed, Columns, all_columns, listed, Join, SelectStatement,
}
use pureq.Query.Compiler.{Compiled}
use pureq.Query.Statements.{compile_select, compile_insert, compile_update, compile_delete}
use pureq.Builder.{Table, QueryContext, Constants, SelectBuilder}
use pureq.Builder.Pushdown.{apply_policy_pushdown, apply_where}
use pureq.Prelude.{true, false, not, Option, none, some, List, [], ◌∷◌, ◌++◌, map, ◌==◌, is_some}
use pureq.Prelude.Text.{Text, codes, codes_key}
use pureq.Prelude.JsMap.{get}

module _ {V : Type 0} where
  abbrev pub columns_of : Text → Table V → List (Column V)
  columns_of table_name table = map (λ e. computed (column e.0 (some table_name))) table.columns

  abbrev pub base_columns : Option (Table V) → List (Column V)
  base_columns none = []
  base_columns (some table) = columns_of table.name table

  abbrev pub joined_columns : List (Text × Table V) → List (Column V)
  joined_columns [] = []
  joined_columns ((alias, table) ∷ es) = columns_of alias table ++ joined_columns es

  -- `"*"` in a query with joins stands for the columns of all its tables.
  unfoldable pub expanded :
      Option (Table V) → List (Text × Table V) → List (Join V) → Columns V → Columns V
  expanded table joined_tables (j ∷ js) all_columns =
      listed (base_columns table ++ joined_columns joined_tables)
  expanded table joined_tables joins columns = columns

  abbrev pub expand_columns : {N : Type 0} → SelectBuilder V N → SelectBuilder V N
  expand_columns b = record b {
    statement = record (b.statement) {
      columns = expanded b.table_obj b.joined_tables b.statement.joins b.statement.columns;
    };
  }

  -- The builder after a run: it keeps the columns, and its joins are those of the statement that ran.
  abbrev pub after_run : {N : Type 0} → SelectBuilder V N → SelectStatement V N → SelectBuilder V N
  after_run b s = record b { statement = record (b.statement) { joins = s.joins } }

module _ {V : Type 0} (c : Constants V) where
  -- The own user id among the values, or the one that is put in.
  unfoldable pub with_user :
      V → Option (Literal V) → List (Text × Literal V) → Answer (List (Text × Literal V))
  with_user user_id none values = done (values ++ (codes "userId", one user_id) ∷ [])
  with_user user_id (some (one v)) values = do
    check (c.same_value v user_id) wrong_user
    done values
  with_user user_id (some (many vs)) values = refused wrong_user

  unfoldable pub inserted_values :
      Table V → Option (QueryContext V) → List (Text × Literal V) → Answer (List (Text × Literal V))
  unfolding with_user
  inserted_values table none values = done values
  inserted_values table (some context) values = elim context.user_id [
    | none ↦ done values
    | some user_id ↦ elim (is_some (get (codes "userId") table.columns)) [
      | false ↦ done values
      | true ↦ with_user user_id (get (codes "userId") values) values
    ]
  ]

module _ (l : Language) {V : Type 0} (c : Constants V) where
  unfoldable pub execute_select :
      SelectBuilder V l.Number → Answer (Compiled V × SelectBuilder V l.Number)
  unfolding apply_policy_pushdown compile_select expanded
  execute_select b = do
    check (not (b.statement.table == [])) missing_table
    let expanded_builder = expand_columns b
    statement ← apply_policy_pushdown c expanded_builder
    compiled ← compile_select l statement
    done (compiled, after_run expanded_builder statement)

  unfoldable pub execute_insert :
      Table V → Option (QueryContext V) → List (Text × Literal V) → Answer (Compiled V)
  unfolding inserted_values compile_insert
  execute_insert table context values = do
    vs ← inserted_values c table context values
    compile_insert l (record { table = table.name; values = vs })

  unfoldable pub execute_update :
      Table V
      → Option (QueryContext V)
      → List (Text × Literal V)
      → Option (Expression V)
      → Answer (Compiled V)
  unfolding compile_update
  execute_update table context values where_clause = compile_update l (record {
    table = table.name;
    values = values;
    where_clause = apply_where table context where_clause;
  })

  unfoldable pub execute_delete :
      Table V → Option (QueryContext V) → Option (Expression V) → Answer (Compiled V)
  unfolding compile_delete
  execute_delete table context where_clause =
      compile_delete l
        (record { table = table.name; where_clause = apply_where table context where_clause })
