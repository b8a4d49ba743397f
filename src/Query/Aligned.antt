-- ===== src/Query/Aligned.antt =====
-- In compiled SQL there is one placeholder for each parameter.
use pureq.Query.{
  is_mark, Language, disallowed_join, done, Literal, Expression, column, literal, binary, function,
  Column, named, computed, Columns, all_columns, listed, Join, Order, SelectStatement,
  InsertStatement, UpdateStatement, DeleteStatement, Statement, select, insert, update, delete,
}
use pureq.Query.Names.{includes, quote_identifier}
use pureq.Query.Compiler.{traverse, comma, all_sql, depth}
use pureq.Query.Statements.{
  valid_types, compile_expression, alias_of, compile_column, compile_columns, compile_join,
  compile_clause, compile_group, compile_order, compile_orders, bound, is_joined, compile_select,
  keys, compile_insert, assignment, compile_update, compile_delete, compile_statement,
}
use pureq.Query.Marks.{
  Holds, >>=-Holds, traverse-Holds, check-Holds, marks, Plain, Balanced, total_marks, marks-join,
  total_marks-all_sql, total_marks-Plain, marks-placeholders, includes-Plain, names-Plain,
  quote_identifier-Plain,
}
use pureq.Prelude.{
  ◌≡◌, refl, ◌∙◌, subst, Bool, true, false, Option, none, some, List, [], ◌∷◌, ◌++◌, length,
  length-append, length-map, count_if, count_if-append, All, arith, ◌==◌, if◌then◌else◌,
}
use pureq.Prelude.Text.{Text, codes, codes_key}
use pureq.Query.Placeholders.{compile-Balanced}

module _ (l : Language) where
  compile_group-Plain : (gs : List Text) → Holds Plain (compile_group l gs)
  unfolding compile_group
  compile_group-Plain [] = refl
  compile_group-Plain (g ∷ gs) =
      >>=-Holds (All Plain) Plain (traverse (quote_identifier l) (g ∷ gs)) _
        (traverse-Holds Plain (quote_identifier l) (g ∷ gs) (quote_identifier-Plain l))
        λ names plain. marks-join comma names refl ∙ total_marks-Plain names plain

  compile_order-Plain : (o : Order) → Holds Plain (compile_order l o)
  unfolding compile_order
  compile_order-Plain o =
      >>=-Holds Plain Plain (quote_identifier l o.order_column) _
        (quote_identifier-Plain l o.order_column)
        λ c plain.
          elim (l.upper o.direction == codes "DESC")
            as (λ b. Plain (c ++ (if b then codes " DESC" else codes " ASC"))) [
              | true ↦ grind (arith, count_if-append)
              | false ↦ grind (arith, count_if-append)
            ]

  compile_orders-Plain : (os : List Order) → Holds Plain (compile_orders l os)
  unfolding compile_orders
  compile_orders-Plain [] = refl
  compile_orders-Plain (o ∷ os) =
      >>=-Holds (All Plain) Plain (traverse (compile_order l) (o ∷ os)) _
        (traverse-Holds Plain (compile_order l) (o ∷ os) compile_order-Plain)
        λ orders plain. marks-join comma orders refl ∙ total_marks-Plain orders plain

  bound-Plain : (keyword : Text) (o : Option l.Number) → Plain keyword → Plain (bound l keyword o)
  bound-Plain keyword none h = refl
  bound-Plain keyword (some n) h =
      omega (arith, count_if-append is_mark keyword (l.number_text n), l.number_text_plain n)

  assignment-marks : (key : Text) → Holds (λ t. marks t ≡ 1) (assignment l key)
  unfolding assignment
  assignment-marks key =
      >>=-Holds Plain (λ t. marks t ≡ 1) (quote_identifier l key) _ (quote_identifier-Plain l key)
        λ k plain. omega (arith, count_if-append is_mark k (codes " = ?"))

  assignments-marks :
      (ks : List Text) → Holds (λ ts. total_marks ts ≡ length ks) (traverse (assignment l) ks)
  assignments-marks [] = refl
  assignments-marks (k ∷ ks) =
      >>=-Holds (λ t. marks t ≡ 1) (λ ts. total_marks ts ≡ length (k ∷ ks)) (assignment l k) _
        (assignment-marks k)
        λ t h.
          >>=-Holds (λ ts. total_marks ts ≡ length ks) (λ ts. total_marks ts ≡ length (k ∷ ks))
            (traverse (assignment l) ks) _ (assignments-marks ks) λ ts hs. omega arith

module _ (l : Language) {V : Type 0} where
  compile_expression-Balanced : (e : Expression V) → Holds Balanced (compile_expression l e)
  unfolding compile_expression
  compile_expression-Balanced e = compile-Balanced l (depth e) e

  alias_of-Plain : (joined : Bool) (e : Expression V) → Holds Plain (alias_of l joined e)
  unfolding alias_of
  alias_of-Plain false e = refl
  alias_of-Plain true (column name none) = refl
  alias_of-Plain true (column name (some [])) = refl
  alias_of-Plain true (column name (some (c ∷ table))) =
      >>=-Holds Plain Plain (quote_identifier l (codes "__" ++ (c ∷ table) ++ codes "__" ++ name)) _
        (quote_identifier-Plain l (codes "__" ++ (c ∷ table) ++ codes "__" ++ name))
        λ alias plain. plain
  alias_of-Plain true (literal v) = refl
  alias_of-Plain true (binary a o b) = refl
  alias_of-Plain true (function n xs) = refl

  compile_column-Balanced :
      (joined : Bool) (c : Column V) → Holds Balanced (compile_column l joined c)
  unfolding compile_column
  compile_column-Balanced joined (named c) =
      >>=-Holds Plain Balanced (quote_identifier l c) _ (quote_identifier-Plain l c)
        λ sql plain. plain
  compile_column-Balanced joined (computed e) =
      >>=-Holds Balanced Balanced (compile_expression l e) _ (compile_expression-Balanced e) λ c hc.
        >>=-Holds Plain Balanced (alias_of l joined e) _ (alias_of-Plain joined e)
          λ alias plain. grind (arith, count_if-append)

  compile_columns-Balanced :
      (joined : Bool) (cs : Columns V) → Holds Balanced (compile_columns l joined cs)
  unfolding compile_columns
  compile_columns-Balanced joined all_columns = refl
  compile_columns-Balanced joined (listed cs) =
      >>=-Holds (All Balanced) Balanced (traverse (compile_column l joined) cs) _
        (traverse-Holds Balanced (compile_column l joined) cs (compile_column-Balanced joined))
        λ compiled hs. marks-join comma (all_sql compiled) refl ∙ total_marks-all_sql compiled hs

  compile_clause-Balanced :
      (keyword : Text) (o : Option (Expression V))
      → Plain keyword
      → Holds Balanced (compile_clause l keyword o)
  unfolding compile_clause
  compile_clause-Balanced keyword none plain = refl
  compile_clause-Balanced keyword (some e) plain =
      >>=-Holds Balanced Balanced (compile_expression l e) _ (compile_expression-Balanced e)
        λ c hc. grind (arith, count_if-append)

  compile_join-Balanced : (j : Join V) → Holds Balanced (compile_join l j)
  unfolding compile_join
  compile_join-Balanced j =
      >>=-Holds Balanced Balanced (compile_expression l j.on) _ (compile_expression-Balanced j.on)
        λ on hon.
          check-Holds Balanced (includes valid_types (l.upper j.kind)) disallowed_join _ λ allowed.
            >>=-Holds Plain Balanced (quote_identifier l j.table) _
              (quote_identifier-Plain l j.table)
              λ table plain.
                let kind =
                  includes-Plain valid_types (l.upper j.kind) (names-Plain valid_types refl)
                    allowed in
                grind (arith, count_if-append)

  compile_select-Balanced : (s : SelectStatement V l.Number) → Holds Balanced (compile_select l s)
  unfolding compile_select
  compile_select-Balanced s =
      >>=-Holds Balanced Balanced (compile_columns l (is_joined s.joins) s.columns) _
        (compile_columns-Balanced (is_joined s.joins) s.columns)
        λ columns hc.
          >>=-Holds Plain Balanced (quote_identifier l s.table) _ (quote_identifier-Plain l s.table)
            λ table ht.
              >>=-Holds (All Balanced) Balanced (traverse (compile_join l) s.joins) _
                (traverse-Holds Balanced (compile_join l) s.joins compile_join-Balanced)
                λ joins hj.
                  >>=-Holds Balanced Balanced (compile_clause l (codes " WHERE ") s.where_clause) _
                    (compile_clause-Balanced (codes " WHERE ") s.where_clause refl)
                    λ filter hf.
                      >>=-Holds Plain Balanced (compile_group l s.group_by) _
                        (compile_group-Plain l s.group_by)
                        λ group hg.
                          >>=-Holds Balanced Balanced (compile_clause l (codes " HAVING ") s.having)
                            _ (compile_clause-Balanced (codes " HAVING ") s.having refl)
                            λ having hh.
                              >>=-Holds Plain Balanced (compile_orders l s.order_by) _
                                (compile_orders-Plain l s.order_by)
                                λ order ho.
                                  let all = marks-join [] (all_sql joins) refl in
                                  let total = total_marks-all_sql joins hj in
                                  let most = bound-Plain l (codes " LIMIT ") s.limit refl in
                                  let first = bound-Plain l (codes " OFFSET ") s.offset refl in
                                  grind (arith, count_if-append, length-append)

  compile_insert-Balanced : (s : InsertStatement V) → Holds Balanced (compile_insert l s)
  unfolding compile_insert
  compile_insert-Balanced s =
      >>=-Holds (All Plain) Balanced (traverse (quote_identifier l) (keys s.values)) _
        (traverse-Holds Plain (quote_identifier l) (keys s.values) (quote_identifier-Plain l))
        λ names hn.
          >>=-Holds Plain Balanced (quote_identifier l s.table) _ (quote_identifier-Plain l s.table)
            λ table ht.
              let listed = marks-join comma names refl ∙ total_marks-Plain names hn in
              let marked = marks-placeholders s.values in
              let size = length-map (λ e. e.1) s.values in grind (arith, count_if-append)

  compile_update-Balanced : (s : UpdateStatement V) → Holds Balanced (compile_update l s)
  unfolding compile_update
  compile_update-Balanced s =
      >>=-Holds (λ ts. total_marks ts ≡ length (keys s.values)) Balanced
        (traverse (assignment l) (keys s.values)) _ (assignments-marks l (keys s.values))
        λ set_clause hs.
          >>=-Holds Plain Balanced (quote_identifier l s.table) _ (quote_identifier-Plain l s.table)
            λ table ht.
              >>=-Holds Balanced Balanced (compile_clause l (codes " WHERE ") s.where_clause) _
                (compile_clause-Balanced (codes " WHERE ") s.where_clause refl)
                λ filter hf.
                  let marked = marks-join comma set_clause refl in
                  let size = length-map (λ e. e.1) s.values in
                  let size' = length-map (λ e. e.0) s.values in
                  grind (arith, count_if-append, length-append)

  compile_delete-Balanced : (s : DeleteStatement V) → Holds Balanced (compile_delete l s)
  unfolding compile_delete
  compile_delete-Balanced s =
      >>=-Holds Plain Balanced (quote_identifier l s.table) _ (quote_identifier-Plain l s.table)
        λ table ht.
          >>=-Holds Balanced Balanced (compile_clause l (codes " WHERE ") s.where_clause) _
            (compile_clause-Balanced (codes " WHERE ") s.where_clause refl)
            λ filter hf. grind (arith, count_if-append)

  compile_statement-Balanced : (s : Statement V l.Number) → Holds Balanced (compile_statement l s)
  unfolding compile_statement
  compile_statement-Balanced (select s) = compile_select-Balanced s
  compile_statement-Balanced (insert s) = compile_insert-Balanced s
  compile_statement-Balanced (update s) = compile_update-Balanced s
  compile_statement-Balanced (delete s) = compile_delete-Balanced s

  -- The SQL of a statement has one placeholder for each parameter.
  pub marks-compile_statement :
      (s : Statement V l.Number) (sql : Text) (params : List (Literal V))
      → compile_statement l s ≡ done (sql, params)
      → count_if is_mark sql ≡ length params
  marks-compile_statement s sql params e = subst (Holds Balanced) e (compile_statement-Balanced s)
