-- ===== src/Query/Statements.antt =====
-- The statements of compiler.ts and the upsert of postgres-compiler.ts.
use pureq.Query.{
  Language, disallowed_join, Answer, done, ◌>>=◌, ◌>>◌, check, Literal, Expression, column, Column,
  named, computed, Columns, all_columns, listed, Join, Order, SelectStatement, InsertStatement,
  UpdateStatement, DeleteStatement, Statement, select, insert, update, delete,
}
use pureq.Query.Names.{quote_identifier, includes}
use pureq.Query.Compiler.{
  Compiled, join, traverse, comma, placeholders, all_sql, all_params, compile, depth,
}
use pureq.Prelude.{
  Bool, true, false, not, Option, none, some, List, [], ◌∷◌, ◌++◌, map, ◌==◌, if◌then◌else◌,
  keep_if,
}
use pureq.Prelude.Text.{Text, codes, codes_key}

abbrev pub valid_types : List Text
valid_types = codes "INNER" ∷ codes "LEFT" ∷ codes "RIGHT" ∷ codes "FULL" ∷ []

-- The names are put in as they are, between quotes.
abbrev pub raw_name : Text → Text
raw_name t = codes "\"" ++ t ++ codes "\""

abbrev pub is_joined : {V : Type 0} → List (Join V) → Bool
is_joined [] = false
is_joined (j ∷ js) = true

abbrev pub keys : {V : Type 0} → List (Text × Literal V) → List Text
keys values = map (λ e. e.0) values

module _ (l : Language) where
  unfoldable pub compile_group : List Text → Answer Text
  unfolding quote_identifier
  compile_group [] = done []
  compile_group (g ∷ gs) = do
    names ← traverse (quote_identifier l) (g ∷ gs)
    done (codes " GROUP BY " ++ join comma names)

  unfoldable pub compile_order : Order → Answer Text
  unfolding quote_identifier
  compile_order o = do
    c ← quote_identifier l o.order_column
    done (c ++ (if l.upper o.direction == codes "DESC" then codes " DESC" else codes " ASC"))

  unfoldable pub compile_orders : List Order → Answer Text
  unfolding compile_order
  compile_orders [] = done []
  compile_orders (o ∷ os) = do
    orders ← traverse compile_order (o ∷ os)
    done (codes " ORDER BY " ++ join comma orders)

  -- ` LIMIT …` and ` OFFSET …`
  abbrev pub bound : Text → Option l.Number → Text
  bound keyword none = []
  bound keyword (some n) = keyword ++ l.number_text n

  unfoldable pub assignment : Text → Answer Text
  unfolding quote_identifier
  assignment key = do k ← quote_identifier l key; done (k ++ codes " = ?")

module _ (l : Language) {V : Type 0} where
  -- Fuel for the depth of the expression is enough.
  unfoldable pub compile_expression : Expression V → Answer (Compiled V)
  unfolding compile
  compile_expression e = compile l (depth e) e

  -- The alias of a column with a table, in a query with joins.
  unfoldable pub alias_of : Bool → Expression V → Answer Text
  unfolding quote_identifier
  alias_of true (column name (some (c ∷ table))) = do
    alias ← quote_identifier l (codes "__" ++ (c ∷ table) ++ codes "__" ++ name)
    done (codes " AS " ++ alias)
  alias_of _ e = done []

  unfoldable pub compile_column : Bool → Column V → Answer (Compiled V)
  unfolding compile_expression alias_of quote_identifier
  compile_column joined (named c) = do sql ← quote_identifier l c; done (sql, [])
  compile_column joined (computed e) = do
    compiled ← compile_expression e
    alias ← alias_of joined e
    done (compiled.0 ++ alias, compiled.1)

  unfoldable pub compile_columns : Bool → Columns V → Answer (Compiled V)
  unfolding compile_column
  compile_columns joined all_columns = done (codes "*", [])
  compile_columns joined (listed cs) = do
    compiled ← traverse (compile_column joined) cs
    done (join comma (all_sql compiled), all_params compiled)

  unfoldable pub compile_join : Join V → Answer (Compiled V)
  unfolding compile_expression quote_identifier
  compile_join j = do
    on ← compile_expression j.on
    check (includes valid_types (l.upper j.kind)) disallowed_join
    table ← quote_identifier l j.table
    done (codes " " ++ l.upper j.kind ++ codes " JOIN " ++ table ++ codes " ON " ++ on.0, on.1)

  -- ` WHERE …` and ` HAVING …`
  unfoldable pub compile_clause : Text → Option (Expression V) → Answer (Compiled V)
  unfolding compile_expression
  compile_clause keyword none = done ([], [])
  compile_clause keyword (some e) = do
    compiled ← compile_expression e
    done (keyword ++ compiled.0, compiled.1)

  unfoldable pub compile_select : SelectStatement V l.Number → Answer (Compiled V)
  unfolding compile_columns compile_join compile_clause compile_group compile_orders
      quote_identifier
  compile_select s = do
    columns ← compile_columns (is_joined s.joins) s.columns
    table ← quote_identifier l s.table
    joins ← traverse compile_join s.joins
    filter ← compile_clause (codes " WHERE ") s.where_clause
    group ← compile_group l s.group_by
    having ← compile_clause (codes " HAVING ") s.having
    order ← compile_orders l s.order_by
    done (
      codes "SELECT "
          ++ columns.0
          ++ codes " FROM "
          ++ table
          ++ join [] (all_sql joins)
          ++ filter.0
          ++ group
          ++ having.0
          ++ order
          ++ bound l (codes " LIMIT ") s.limit
          ++ bound l (codes " OFFSET ") s.offset,
      columns.1 ++ all_params joins ++ filter.1 ++ having.1,
    )

  unfoldable pub compile_insert : InsertStatement V → Answer (Compiled V)
  unfolding quote_identifier
  compile_insert s = do
    quoted_keys ← traverse (quote_identifier l) (keys s.values)
    table ← quote_identifier l s.table
    done (
      codes "INSERT INTO "
          ++ table
          ++ codes " ("
          ++ join comma quoted_keys
          ++ codes ") VALUES ("
          ++ placeholders s.values
          ++ codes ")",
      map (λ e. e.1) s.values,
    )

  unfoldable pub compile_update : UpdateStatement V → Answer (Compiled V)
  unfolding assignment compile_clause quote_identifier
  compile_update s = do
    set_clause ← traverse (assignment l) (keys s.values)
    table ← quote_identifier l s.table
    filter ← compile_clause (codes " WHERE ") s.where_clause
    done (
      codes "UPDATE " ++ table ++ codes " SET " ++ join comma set_clause ++ filter.0,
      map (λ e. e.1) s.values ++ filter.1,
    )

  unfoldable pub compile_delete : DeleteStatement V → Answer (Compiled V)
  unfolding compile_clause quote_identifier
  compile_delete s = do
    table ← quote_identifier l s.table
    filter ← compile_clause (codes " WHERE ") s.where_clause
    done (codes "DELETE FROM " ++ table ++ filter.0, filter.1)

  -- The method of the compiler that the builders call for their statement.
  unfoldable pub compile_statement : Statement V l.Number → Answer (Compiled V)
  unfolding compile_select compile_insert compile_update compile_delete
  compile_statement (select s) = compile_select s
  compile_statement (insert s) = compile_insert s
  compile_statement (update s) = compile_update s
  compile_statement (delete s) = compile_delete s

  unfoldable pub compile_upsert : InsertStatement V → List Text → Answer (Compiled V)
  unfolding compile_insert
  compile_upsert s conflict_target = do
    inserted ← compile_insert s
    let updated = keep_if (λ k. not (includes conflict_target k)) (keys s.values)
    let update_clause =
        join comma (map (λ k. raw_name k ++ codes " = EXCLUDED." ++ raw_name k) updated)
    done (
      inserted.0
          ++ codes " ON CONFLICT ("
          ++ join comma (map raw_name conflict_target)
          ++ codes ") DO UPDATE SET "
          ++ update_clause,
      inserted.1,
    )
