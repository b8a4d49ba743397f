-- ===== src/Builder/Pushdown.antt =====
-- applyRLS and applyPolicyPushdown: the filters of the tables go into the statement. The joins of a
-- builder and of the statement that it runs are the same objects, so a filter that is put into one
-- stays in the builder.
use pureq.Query.{
  Answer, done, ◌>>=◌, one, Expression, column, literal, binary, Join, SelectStatement,
}
use pureq.Builder.{Table, QueryContext, Constants, SelectBuilder, conjunction, add_where_clause}
use pureq.Builder.Security.{apply_column_security}
use pureq.Prelude.{
  Bool, true, false, Option, none, some, List, [], ◌∷◌, map, ◌==◌, if◌then◌else◌, or_else, is_some,
}
use pureq.Prelude.Text.{Text, codes, codes_key}
use pureq.Prelude.JsMap.{get}

module _ {V : Type 0} where
  -- The rows of a user, in a table that has a column for users.
  abbrev pub user_filter : Bool → Text → Option V → Option (Expression V)
  user_filter true target_name (some user_id) =
      some (binary (column (codes "userId") (some target_name)) (codes "=") (literal (one user_id)))
  user_filter _ target_name _ = none

  -- The filter of a table, under the name by which the statement refers to it.
  abbrev pub filter_of : Table V → Text → QueryContext V → Option (Expression V)
  filter_of table target_name context = elim table.rls [
    | some rls ↦ rls context
    | none ↦ user_filter (is_some (get (codes "userId") table.columns)) target_name context.user_id
  ]

  -- The first join with the table takes the filter. `none`: there is no such join.
  unfoldable pub add_to_join : Text → Expression V → List (Join V) → Option (List (Join V))
  add_to_join name filter [] = none
  add_to_join name filter (j ∷ js) = elim (j.table == name) [
    | true ↦ some (record { kind = j.kind; table = j.table; on = conjunction j.on filter } ∷ js)
    | false ↦ elim (add_to_join name filter js) [ none ↦ none | some js' ↦ some (j ∷ js') ]
  ]

  abbrev pub add_filter : Option (Expression V) → Option (Expression V) → Option (Expression V)
  add_filter where_clause none = where_clause
  add_filter where_clause (some filter) = add_where_clause where_clause filter

  module _ {N : Type 0} where
    abbrev pub filter_where : Expression V → SelectStatement V N → SelectStatement V N
    filter_where filter s = record s { where_clause = add_where_clause s.where_clause filter }

    abbrev pub filter_join :
        Expression V → Option (List (Join V)) → SelectStatement V N → SelectStatement V N
    filter_join filter none s = filter_where filter s
    filter_join filter (some joins) s = record s { joins = joins }

    -- applyRLS with an alias, which is an identifier and so not empty, and without one
    unfoldable pub apply_filter :
        Option (Expression V) → Option Text → Text → SelectStatement V N → SelectStatement V N
    unfolding add_to_join
    apply_filter none alias table_name s = s
    apply_filter (some filter) none table_name s = filter_where filter s
    apply_filter (some filter) (some alias) table_name s =
        filter_join filter (add_to_join table_name filter s.joins) s

    unfoldable pub apply_rls :
        Table V → QueryContext V → Option Text → SelectStatement V N → SelectStatement V N
    unfolding apply_filter
    apply_rls table context alias s =
        apply_filter (filter_of table (or_else alias table.name) context) alias table.name s

  -- `Object.keys(joinedTables).find(…)`: the first alias of a table
  unfoldable pub alias_of_table : Text → List (Text × Table V) → Option (Text × Table V)
  alias_of_table name [] = none
  alias_of_table name ((alias, table) ∷ es) =
      let rest = alias_of_table name es in if table.name == name then some (alias, table) else rest

abbrev pub table_names : {V : Type 0} → List (Join V) → List Text
table_names joins = map (λ j. j.table) joins

module _ {V N : Type 0} (c : Constants V) (context : QueryContext V) where
  unfoldable pub secure_table :
      Table V → Option Text → SelectStatement V N → Answer (SelectStatement V N)
  unfolding apply_rls apply_column_security
  secure_table table alias s = do
    let filtered = apply_rls table context alias s
    columns ←
        apply_column_security c table (or_else alias table.name) context.scopes filtered.columns
    done (record filtered { columns = columns })

  abbrev pub secure_base : Option (Table V) → SelectStatement V N → Answer (SelectStatement V N)
  secure_base none s = done s
  secure_base (some table) s = secure_table table none s

  abbrev pub secure_join :
      Option (Text × Table V) → SelectStatement V N → Answer (SelectStatement V N)
  secure_join none s = done s
  secure_join (some (alias, table)) s = secure_table table (some alias) s

  -- The loop over the joins, by the names of their tables.
  unfoldable pub secure_joins :
      List (Text × Table V) → List Text → SelectStatement V N → Answer (SelectStatement V N)
  unfolding secure_table alias_of_table
  secure_joins joined_tables [] s = done s
  secure_joins joined_tables (name ∷ names) s = do
    s1 ← secure_join (alias_of_table name joined_tables) s
    secure_joins joined_tables names s1

  unfoldable pub push_down : SelectBuilder V N → Answer (SelectStatement V N)
  unfolding secure_table secure_joins
  push_down b = do
    s ← secure_base b.table_obj b.statement
    secure_joins b.joined_tables (table_names s.joins) s

module _ {V N : Type 0} (c : Constants V) where
  abbrev pub push_down_in :
      Option (QueryContext V) → SelectBuilder V N → Answer (SelectStatement V N)
  push_down_in none b = done b.statement
  push_down_in (some context) b = push_down c context b

  unfoldable pub apply_policy_pushdown : SelectBuilder V N → Answer (SelectStatement V N)
  unfolding push_down
  apply_policy_pushdown b = push_down_in b.context b

-- applyRLS on the statements of the update and the delete builder
abbrev pub apply_where :
    {V : Type 0} → Table V → Option (QueryContext V) → Option (Expression V) → Option (Expression V)
apply_where table none where_clause = where_clause
apply_where table (some context) where_clause =
    add_filter where_clause (filter_of table table.name context)
