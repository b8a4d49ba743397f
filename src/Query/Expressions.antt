-- ===== src/Query/Expressions.antt =====
-- expressions.ts: how expressions are made. `always` and `never` are the values true and false.
use mathlib.Core.List.{append-nil}
use pureq.Query.{
  Language, Answer, done, ◌>>=◌, Literal, one, Expression, column, literal, binary, function,
}
use pureq.Query.Compiler.{
  Compiled, join, traverse, all_sql, all_params, flatten, is_chain, compile_chain, compile_node,
  compile,
}
use pureq.Prelude.{
  ℕ, suc, ◌≡◌, refl, sym, ap, ◌∙◌, true, false, Option, none, List, [], ◌∷◌, ◌++◌, ◌==◌, Bool-cases,
  inl, inr,
}
use pureq.Prelude.Text.{Text, codes, codes_key, same_codes_iff}

-- The left side is a name or an expression; the right side an expression, which is any object with a
-- `type`, or another value.
pub data LeftOperand (V : Type 0) : Type 0 where
  by_name : Text → LeftOperand V
  by_expression : Expression V → LeftOperand V

pub data RightOperand (V : Type 0) : Type 0 where
  expression : Expression V → RightOperand V
  value : Literal V → RightOperand V

module _ {V : Type 0} where
  abbrev pub col : Text → Option Text → Expression V
  col name table = column name table

  abbrev pub lit : Literal V → Expression V
  lit v = literal v

  abbrev pub to_expr : RightOperand V → Expression V
  to_expr (expression e) = e
  to_expr (value v) = lit v

  abbrev pub to_left : LeftOperand V → Expression V
  to_left (by_name name) = col name none
  to_left (by_expression e) = e

  abbrev pub eq : LeftOperand V → RightOperand V → Expression V
  eq left right = binary (to_left left) (codes "=") (to_expr right)

  abbrev pub ne : LeftOperand V → RightOperand V → Expression V
  ne left right = binary (to_left left) (codes "!=") (to_expr right)

  abbrev pub gt : LeftOperand V → RightOperand V → Expression V
  gt left right = binary (to_left left) (codes ">") (to_expr right)

  abbrev pub lt : LeftOperand V → RightOperand V → Expression V
  lt left right = binary (to_left left) (codes "<") (to_expr right)

  abbrev pub gte : LeftOperand V → RightOperand V → Expression V
  gte left right = binary (to_left left) (codes ">=") (to_expr right)

  abbrev pub lte : LeftOperand V → RightOperand V → Expression V
  lte left right = binary (to_left left) (codes "<=") (to_expr right)

  -- `exprs.reduce(…)` from a first expression
  unfoldable pub reduce : Text → Expression V → List (Expression V) → Expression V
  reduce op acc [] = acc
  reduce op acc (curr ∷ exprs) = reduce op (binary acc op curr) exprs

  unfoldable pub combine : Text → V → List (Expression V) → Expression V
  unfolding reduce
  combine op neutral [] = lit (one neutral)
  combine op neutral (e ∷ []) = e
  combine op neutral (e ∷ f ∷ exprs) = reduce op e (f ∷ exprs)

  abbrev pub and : V → List (Expression V) → Expression V
  and always exprs = combine (codes "AND") always exprs

  abbrev pub or : V → List (Expression V) → Expression V
  or never exprs = combine (codes "OR") never exprs

  combine-cons :
      (op : Text) (neutral : V) (e : Expression V) (exprs : List (Expression V))
      → combine op neutral (e ∷ exprs) ≡ reduce op e exprs
  unfolding combine
  combine-cons op neutral e [] = refl
  combine-cons op neutral e (f ∷ exprs) = refl

  combine-flatten_onto :
      (op : Text) (neutral : V) (e : Expression V) (stack : List (Expression V))
      → combine op neutral (flatten op e stack) ≡ reduce op e stack
  unfolding flatten reduce
  combine-flatten_onto op neutral (column c t) stack = combine-cons op neutral (column c t) stack
  combine-flatten_onto op neutral (literal v) stack = combine-cons op neutral (literal v) stack
  combine-flatten_onto op neutral (function c xs) stack =
      combine-cons op neutral (function c xs) stack
  combine-flatten_onto op neutral (binary left o right) stack = elim (Bool-cases (o == op)) [
    | inl e ↦ rw e (
        combine-flatten_onto op neutral left (right ∷ stack)
        ∙ ap (λ p. reduce op (binary left p right) stack) (sym ((same_codes_iff o op).0 e)))
    | inr n ↦ rw n (combine-cons op neutral (binary left o right) stack)
  ]

  -- The operands that the compiler takes out of a chain make the chain again, in their order.
  pub combine-flatten :
      (op : Text) (neutral : V) (e : Expression V) → combine op neutral (flatten op e []) ≡ e
  unfolding reduce
  combine-flatten op neutral e = combine-flatten_onto op neutral e []

  flatten-reduce :
      (op : Text) (e : Expression V) (exprs stack : List (Expression V))
      → flatten op (reduce op e exprs) stack ≡ flatten op e (exprs ++ stack)
  unfolding flatten reduce
  flatten-reduce op e [] stack = refl
  flatten-reduce op e (f ∷ exprs) stack =
      flatten-reduce op (binary e op f) exprs stack ∙ rw ((same_codes_iff op op).1 refl) refl

  -- the operator of an expression is another one
  abbrev pub IsApart : Text → Expression V → Type 0
  IsApart op (binary left o right) = (o == op) ≡ false
  IsApart op e = Unit

  flatten-IsApart :
      (op : Text) (e : Expression V) (stack : List (Expression V))
      → IsApart op e
      → flatten op e stack ≡ e ∷ stack
  unfolding flatten
  flatten-IsApart op (column c t) stack h = refl
  flatten-IsApart op (literal v) stack h = refl
  flatten-IsApart op (function c xs) stack h = refl
  flatten-IsApart op (binary left o right) stack h = rw h refl

  compile_node-binary :
      (l : Language) (compile_v : Expression V → Answer (Compiled V)) (op : Text) (e : Expression V)
      (f : Expression V) (exprs : List (Expression V))
      → is_chain op ≡ true
      → compile_node l compile_v (reduce op e (f ∷ exprs))
        ≡ compile_chain l compile_v op (reduce op e (f ∷ exprs))
  unfolding compile_node reduce
  compile_node-binary l compile_v op e f [] h = rw h refl
  compile_node-binary l compile_v op e f (g ∷ exprs) h =
      compile_node-binary l compile_v op (binary e op f) g exprs h

  -- A conjunction or a disjunction of two or more expressions, the first of them no such chain
  -- itself, compiles to the texts of all of them in one pair of parentheses, joined by the operator,
  -- with their parameters in that order.
  pub compile-combine :
      (l : Language) (fuel : ℕ) (op : Text) (neutral : V) (e f : Expression V)
      (exprs : List (Expression V))
      → is_chain op ≡ true
      → IsApart op e
      → compile l (suc fuel) (combine op neutral (e ∷ f ∷ exprs)) ≡ (
          traverse (compile l fuel) (e ∷ f ∷ exprs) >>= λ parts. done (
            codes "(" ++ join (codes " " ++ op ++ codes " ") (all_sql parts) ++ codes ")",
            all_params parts,
          ))
  unfolding compile combine compile_chain
  compile-combine l fuel op neutral e f exprs h apart =
      compile_node-binary l (compile l fuel) op e f exprs h
      ∙ ap
          (λ es. traverse (compile l fuel) es >>= λ parts. done (
            codes "(" ++ join (codes " " ++ op ++ codes " ") (all_sql parts) ++ codes ")",
            all_params parts,
          ))
          (flatten-reduce op e (f ∷ exprs) []
            ∙ flatten-IsApart op e ((f ∷ exprs) ++ []) apart
            ∙ ap (◌∷◌ e) (append-nil (f ∷ exprs)))
