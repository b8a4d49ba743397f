-- ===== src/Builder.antt =====
-- packages/db/src/builder/builder.ts: the builders that collect a statement, with the parts of
-- schema/dsl.ts and types/context.ts that they read. The values of a statement, their equality and
-- the search for cycles are parameters. A call that a type forbids (a name that is no text) and the
-- names that every object inherits are left out.
pub mod Steps
pub mod Security
pub mod Pushdown
pub mod Prepare
pub mod Passes
pub mod Rows
pub mod Joined
pub mod Hidden
pub mod Visible
pub mod Kept
pub mod Shown
pub mod Inserted
pub mod Aliases
mod Examples
use pureq.Query.{
  Language, Answer, done, ◌>>=◌, ◌>>◌, check, circular_value, Literal, one, Expression, column,
  literal, binary, function, no_args, arg, Column, named, Columns, all_columns, listed, Join,
  SelectStatement, UpdateStatement, DeleteStatement,
}
use pureq.Query.Names.{validate_identifier, validate_operator, validate_expression}
use pureq.Query.Compiler.{traverse}
use pureq.Prelude.{Bool, true, false, not, Option, none, some, List, [], ◌∷◌, ◌++◌, map}
use pureq.Prelude.Text.{Text, codes, codes_key}
use pureq.Prelude.JsMap.{set}

pub data Redact : Type 0 where
  mask hide keep : Redact

-- `ColumnOptions.policy`; an absent list of scopes is empty.
pub record ColumnPolicy : Type 0 where
  pub pii : Bool
  pub redact : Option Redact
  pub scope : List Text

pub record QueryContext (V : Type 0) : Type 0 where
  pub scopes : List Text
  pub user_id : Option V

-- The columns with their policies, and the filter that the table's policy gives for a context.
pub record Table (V : Type 0) : Type 0 where
  pub name : Text
  pub columns : List (Text × Option ColumnPolicy)
  pub rls : Option (QueryContext V → Option (Expression V))

-- What the builders use of values: `===`, isCircular, and the values 1, 3 and "***".
pub record Constants (V : Type 0) : Type 0 where
  pub same_value : V → V → Bool
  pub is_circular : Literal V → Bool
  pub number_one : V
  pub number_three : V
  pub stars : V

-- `joined_tables` are in the order in which their aliases were put in.
pub record SelectBuilder (V N : Type 0) : Type 0 where
  pub statement : SelectStatement V N
  pub table_obj : Option (Table V)
  pub joined_tables : List (Text × Table V)
  pub context : Option (QueryContext V)

-- What `where` is called with: an expression, alone or compared with a value, or a column's name.
pub data Condition (V : Type 0) : Type 0 where
  alone : Expression V → Condition V
  compared : Expression V → Text → Literal V → Condition V
  by_column : Text → Text → Literal V → Condition V

module _ {V : Type 0} where
  abbrev pub conjunction : Expression V → Expression V → Expression V
  conjunction left right = binary left (codes "AND") right

  -- addWhereClause
  abbrev pub add_where_clause : Option (Expression V) → Expression V → Option (Expression V)
  add_where_clause none expr = some expr
  add_where_clause (some where_expr) expr = some (conjunction where_expr expr)

  abbrev pub count : Text → Expression V
  count name = function (codes "COUNT") (arg (column name none) no_args)

  abbrev pub sum : Text → Expression V
  sum name = function (codes "SUM") (arg (column name none) no_args)

  abbrev pub avg : Text → Expression V
  avg name = function (codes "AVG") (arg (column name none) no_args)

  abbrev pub min : Text → Expression V
  min name = function (codes "MIN") (arg (column name none) no_args)

  abbrev pub max : Text → Expression V
  max name = function (codes "MAX") (arg (column name none) no_args)

abbrev pub new_select : {V N : Type 0} → SelectBuilder V N
new_select = record {
  statement = record {
    table = [];
    columns = all_columns;
    joins = [];
    where_clause = none;
    group_by = [];
    having = none;
    limit = none;
    offset = none;
    order_by = [];
  };
  table_obj = none;
  joined_tables = [];
  context = none;
}

module _ (l : Language) {V : Type 0} (c : Constants V) where
  -- The expression of `where` of the select builder.
  unfoldable pub condition_of : Condition V → Answer (Expression V)
  unfolding validate_expression validate_operator validate_identifier
  condition_of (alone expr) = do validate_expression l c.is_circular expr; done expr
  condition_of (compared expr operator value) = do
    validate_expression l c.is_circular expr
    o ← validate_operator l operator
    check (not (c.is_circular value)) circular_value
    done (binary expr operator (literal value))
  condition_of (by_column name operator value) = do
    validate_identifier l name
    o ← validate_operator l operator
    check (not (c.is_circular value)) circular_value
    done (binary (column name none) operator (literal value))

  -- That of the update and the delete builder, which take no operator beside an expression and do
  -- not look for cycles.
  unfoldable pub write_condition_of : Condition V → Answer (Expression V)
  unfolding validate_expression validate_operator validate_identifier
  write_condition_of (alone expr) = do validate_expression l c.is_circular expr; done expr
  write_condition_of (compared expr operator value) = do
    validate_expression l c.is_circular expr
    done expr
  write_condition_of (by_column name operator value) = do
    validate_identifier l name
    o ← validate_operator l operator
    done (binary (column name none) operator (literal value))
