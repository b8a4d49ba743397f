-- ===== src/Builder/Steps.antt =====
-- The methods of SelectBuilder that collect the statement.
use pureq.Query.{
  Language, invalid_number, Answer, done, ◌>>=◌, ◌>>◌, check, Expression, binary, column, named,
  all_columns, listed,
}
use pureq.Query.Names.{validate_identifier, validate_expression}
use pureq.Query.Compiler.{traverse}
use pureq.Builder.{
  Constants, Table, QueryContext, SelectBuilder, Condition, condition_of, add_where_clause,
}
use pureq.Prelude.{Bool, not, Option, none, some, List, [], ◌∷◌, ◌++◌, map}
use pureq.Prelude.Text.{Text, codes, codes_key}
use pureq.Prelude.JsMap.{set}

module _ (l : Language) {V : Type 0} (c : Constants V) where
  abbrev pub Builder : Type 0
  Builder = SelectBuilder V l.Number

  abbrev pub from : Table V → Builder → Builder
  from table b = record b {
    statement = record (b.statement) { table = table.name };
    table_obj = some table;
  }

  -- `none` is `"*"`.
  unfoldable pub select_columns : Option (List Text) → Builder → Answer Builder
  unfolding validate_identifier
  select_columns none b =
      done (record b { statement = record (b.statement) { columns = all_columns } })
  select_columns (some columns) b = do
    names ← traverse (validate_identifier l) columns
    done (record b { statement = record (b.statement) { columns = listed (map named columns) } })

  -- `on` is the expression that the callback gives. A new alias goes to the end.
  unfoldable pub join : Text → Text → Table V → Expression V → Builder → Answer Builder
  unfolding validate_identifier validate_expression
  join kind alias table on b = do
    validate_identifier l alias
    validate_expression l c.is_circular on
    done (record b {
      statement = record (b.statement) {
        joins = b.statement.joins ++ record { kind = kind; table = table.name; on = on } ∷ [];
      };
      joined_tables = set alias table b.joined_tables;
    })

  -- `with`, for a relation of the base table.
  unfoldable pub with_relation : Text → Table V → Text → Table V → Builder → Answer Builder
  unfolding join
  with_relation relation_name target foreign_key base b =
      join (codes "inner") relation_name target
        (binary (column foreign_key (some base.name)) (codes "=")
          (column (codes "id") (some target.name)))
        b

  unfoldable pub group_by : List Text → Builder → Answer Builder
  unfolding validate_identifier
  group_by columns b = do
    names ← traverse (validate_identifier l) columns
    done (record b { statement = record (b.statement) { group_by = columns } })

  unfoldable pub having : Expression V → Builder → Answer Builder
  unfolding validate_expression
  having expression b = do
    validate_expression l c.is_circular expression
    done (record b { statement = record (b.statement) { having = some expression } })

  unfoldable pub where_rows : Condition V → Builder → Answer Builder
  unfolding condition_of
  where_rows condition b = do
    expr ← condition_of l c condition
    done (record b {
      statement = record (b.statement) {
        where_clause = add_where_clause b.statement.where_clause expr;
      };
    })

  unfoldable pub order_by : Text → Text → Builder → Answer Builder
  unfolding validate_identifier
  order_by name direction b = do
    validate_identifier l name
    done (record b {
      statement = record (b.statement) {
        order_by =
            b.statement.order_by ++ record { order_column = name; direction = direction } ∷ [];
      };
    })

  -- `is_nan` is `isNaN`.
  abbrev pub limit : (l.Number → Bool) → l.Number → Builder → Answer Builder
  limit is_nan n b = do
    check (not (is_nan n)) invalid_number
    done (record b { statement = record (b.statement) { limit = some n } })

  abbrev pub offset : (l.Number → Bool) → l.Number → Builder → Answer Builder
  offset is_nan n b = do
    check (not (is_nan n)) invalid_number
    done (record b { statement = record (b.statement) { offset = some n } })

  abbrev pub with_context : QueryContext V → Builder → Builder
  with_context context b = record b { context = some context }
