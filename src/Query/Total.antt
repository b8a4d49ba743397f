-- ===== src/Query/Total.antt =====
-- Every statement is compiled or refused.
use pureq.Query.{
  Language, disallowed_join, out_of_fuel, check, Expression, column, literal, binary, function,
  Column, named, computed, Columns, all_columns, listed, Join, Order, Statement, select, insert,
  update, delete,
}
use pureq.Query.Names.{quote_identifier, includes}
use pureq.Query.Compiler.{traverse, depth}
use pureq.Query.Statements.{
  valid_types, compile_expression, alias_of, compile_column, compile_columns, compile_join,
  compile_clause, compile_group, compile_order, compile_orders, is_joined, compile_select, keys,
  compile_insert, assignment, compile_update, compile_delete, compile_statement,
}
use pureq.Prelude.{◌≢◌, Bool, true, false, Option, none, some, List, [], ◌∷◌, ◌++◌, arith}
use pureq.Prelude.Text.{Text, codes, codes_key}
use pureq.Query.Finished.{
  Finishes, Finishes-ne, >>=-Finishes, traverse_always-Finishes, check-Finishes,
  quote_identifier-Finishes, compile-Finishes,
}

module _ (l : Language) where
  names_finish : (names : List Text) → Finishes (traverse (quote_identifier l) names)
  names_finish names =
      traverse_always-Finishes (quote_identifier l) names (quote_identifier-Finishes l)

  compile_group-Finishes : (gs : List Text) → Finishes (compile_group l gs)
  unfolding compile_group
  compile_group-Finishes [] = tt
  compile_group-Finishes (g ∷ gs) =
      >>=-Finishes (traverse (quote_identifier l) (g ∷ gs)) _ (names_finish (g ∷ gs)) λ names. tt

  compile_order-Finishes : (o : Order) → Finishes (compile_order l o)
  unfolding compile_order
  compile_order-Finishes o =
      >>=-Finishes (quote_identifier l o.order_column) _
        (quote_identifier-Finishes l o.order_column) λ c. tt

  compile_orders-Finishes : (os : List Order) → Finishes (compile_orders l os)
  unfolding compile_orders
  compile_orders-Finishes [] = tt
  compile_orders-Finishes (o ∷ os) =
      >>=-Finishes (traverse (compile_order l) (o ∷ os)) _
        (traverse_always-Finishes (compile_order l) (o ∷ os) compile_order-Finishes) λ orders. tt

  assignment-Finishes : (key : Text) → Finishes (assignment l key)
  unfolding assignment
  assignment-Finishes key =
      >>=-Finishes (quote_identifier l key) _ (quote_identifier-Finishes l key) λ k. tt

module _ (l : Language) {V : Type 0} where
  compile_expression-Finishes : (e : Expression V) → Finishes (compile_expression l e)
  unfolding compile_expression
  compile_expression-Finishes e = compile-Finishes l (depth e) e (omega arith)

  alias_of-Finishes : (joined : Bool) (e : Expression V) → Finishes (alias_of l joined e)
  unfolding alias_of
  alias_of-Finishes false e = tt
  alias_of-Finishes true (column name none) = tt
  alias_of-Finishes true (column name (some [])) = tt
  alias_of-Finishes true (column name (some (c ∷ table))) =
      >>=-Finishes (quote_identifier l (codes "__" ++ (c ∷ table) ++ codes "__" ++ name)) _
        (quote_identifier-Finishes l (codes "__" ++ (c ∷ table) ++ codes "__" ++ name)) λ alias. tt
  alias_of-Finishes true (literal v) = tt
  alias_of-Finishes true (binary a o b) = tt
  alias_of-Finishes true (function n xs) = tt

  compile_column-Finishes : (joined : Bool) (c : Column V) → Finishes (compile_column l joined c)
  unfolding compile_column
  compile_column-Finishes joined (named c) =
      >>=-Finishes (quote_identifier l c) _ (quote_identifier-Finishes l c) λ sql. tt
  compile_column-Finishes joined (computed e) =
      >>=-Finishes (compile_expression l e) _ (compile_expression-Finishes e)
        λ c. >>=-Finishes (alias_of l joined e) _ (alias_of-Finishes joined e) λ alias. tt

  compile_columns-Finishes :
      (joined : Bool) (cs : Columns V) → Finishes (compile_columns l joined cs)
  unfolding compile_columns
  compile_columns-Finishes joined all_columns = tt
  compile_columns-Finishes joined (listed cs) =
      >>=-Finishes (traverse (compile_column l joined) cs) _
        (traverse_always-Finishes (compile_column l joined) cs (compile_column-Finishes joined))
        λ c. tt

  compile_join-Finishes : (j : Join V) → Finishes (compile_join l j)
  unfolding compile_join
  compile_join-Finishes j =
      >>=-Finishes (compile_expression l j.on) _ (compile_expression-Finishes j.on) λ on.
        >>=-Finishes (check (includes valid_types (l.upper j.kind)) disallowed_join) _
          (check-Finishes (includes valid_types (l.upper j.kind)) disallowed_join)
          λ u.
            >>=-Finishes (quote_identifier l j.table) _ (quote_identifier-Finishes l j.table)
              λ table. tt

  compile_clause-Finishes :
      (keyword : Text) (o : Option (Expression V)) → Finishes (compile_clause l keyword o)
  unfolding compile_clause
  compile_clause-Finishes keyword none = tt
  compile_clause-Finishes keyword (some e) =
      >>=-Finishes (compile_expression l e) _ (compile_expression-Finishes e) λ c. tt

  compile_statement-Finishes : (s : Statement V l.Number) → Finishes (compile_statement l s)
  unfolding compile_statement compile_select compile_insert compile_update compile_delete
  compile_statement-Finishes (select s) =
      >>=-Finishes (compile_columns l (is_joined s.joins) s.columns) _
        (compile_columns-Finishes (is_joined s.joins) s.columns)
        λ columns.
          >>=-Finishes (quote_identifier l s.table) _ (quote_identifier-Finishes l s.table) λ table.
            >>=-Finishes (traverse (compile_join l) s.joins) _
              (traverse_always-Finishes (compile_join l) s.joins compile_join-Finishes)
              λ joins.
                >>=-Finishes (compile_clause l (codes " WHERE ") s.where_clause) _
                  (compile_clause-Finishes (codes " WHERE ") s.where_clause)
                  λ filter.
                    >>=-Finishes (compile_group l s.group_by) _
                      (compile_group-Finishes l s.group_by)
                      λ group.
                        >>=-Finishes (compile_clause l (codes " HAVING ") s.having) _
                          (compile_clause-Finishes (codes " HAVING ") s.having)
                          λ having.
                            >>=-Finishes (compile_orders l s.order_by) _
                              (compile_orders-Finishes l s.order_by) λ order. tt
  compile_statement-Finishes (insert s) =
      >>=-Finishes (traverse (quote_identifier l) (keys s.values)) _
        (names_finish l (keys s.values))
        λ names.
          >>=-Finishes (quote_identifier l s.table) _ (quote_identifier-Finishes l s.table)
            λ table. tt
  compile_statement-Finishes (update s) =
      >>=-Finishes (traverse (assignment l) (keys s.values)) _
        (traverse_always-Finishes (assignment l) (keys s.values) (assignment-Finishes l))
        λ set_clause.
          >>=-Finishes (quote_identifier l s.table) _ (quote_identifier-Finishes l s.table) λ table.
            >>=-Finishes (compile_clause l (codes " WHERE ") s.where_clause) _
              (compile_clause-Finishes (codes " WHERE ") s.where_clause) λ filter. tt
  compile_statement-Finishes (delete s) =
      >>=-Finishes (quote_identifier l s.table) _ (quote_identifier-Finishes l s.table) λ table.
        >>=-Finishes (compile_clause l (codes " WHERE ") s.where_clause) _
          (compile_clause-Finishes (codes " WHERE ") s.where_clause) λ filter. tt

  -- Every statement is compiled or refused: fuel for the depth of each expression is enough, also
  -- for the chains, whose operands are taken apart by a loop.
  pub compile_statement-ne-out_of_fuel :
      (s : Statement V l.Number) → compile_statement l s ≢ out_of_fuel
  compile_statement-ne-out_of_fuel s =
      Finishes-ne (compile_statement l s) (compile_statement-Finishes s)
