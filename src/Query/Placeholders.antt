-- ===== src/Query/Placeholders.antt =====
-- In a compiled expression there is one placeholder for each parameter.
use pureq.Query.{
  is_mark, Language, Answer, ◌>>=◌, one, many, Expression, column, literal, binary, function,
}
use pureq.Query.Names.{quote_identifier, validate_operator, validate_function_name, nonempty}
use pureq.Query.Compiler.{
  Compiled, join, traverse, comma, all_sql, json_pair, with_table, compile_chain, compile_operands,
  compile_membership, compile_in, compile_binary, compile_function, compile_node, compile, flatten,
  is_chain, list_of,
}
use pureq.Query.Marks.{
  Holds, >>=-Holds, traverse-Holds, marks, Plain, Balanced, marks-join, total_marks-all_sql,
  marks-placeholders, quote_identifier-Plain, validate_operator-Plain, validate_function_name-Plain,
  with_table-Plain,
}
use pureq.Prelude.{
  ℕ, zero, suc, ◌≡◌, refl, sym, ◌∙◌, subst, Bool, true, false, ◌||◌, List, [], ◌∷◌, ◌++◌,
  length-append, length-map, count_if-append, All, arith, ◌==◌, if◌then◌else◌, Bool-cases, inl, inr,
}
use pureq.Prelude.Text.{Text, codes, codes_key, same_codes_iff}

json_pair-Balanced :
    {V : Type 0} (cs : List (Compiled V)) → All Balanced cs → Holds Balanced (json_pair cs)
json_pair-Balanced [] h = tt
json_pair-Balanced (c ∷ []) h = tt
json_pair-Balanced (c ∷ path ∷ cs) h = grind (arith, count_if-append, length-append)

if-Holds {ℓ κ} :
    {A : Type ℓ} (P : A → Type κ) (b : Bool) (x y : Answer A)
    → Holds P x
    → Holds P y
    → Holds P (if b then x else y)
if-Holds P true x y h k = h
if-Holds P false x y h k = k

is_chain-Plain : (o : Text) → is_chain o ≡ true → Plain o
is_chain-Plain o h = elim (Bool-cases (o == codes "OR")) [
  | inl e ↦ subst Plain (sym ((same_codes_iff o (codes "OR")).0 e)) refl
  | inr n ↦ subst Plain (sym ((same_codes_iff o (codes "AND")).0 (sym (rw n refl) ∙ h))) refl
]

module _ (l : Language) {V : Type 0} where
  module _ (compile : Expression V → Answer (Compiled V))
      (h : (e : Expression V) → Holds Balanced (compile e)) where
    compile_operands-Balanced :
        (left : Expression V) (op : Text) (right : Expression V)
        → Plain op
        → Holds Balanced (compile_operands l compile left op right)
    unfolding compile_operands
    compile_operands-Balanced left op right plain =
        >>=-Holds Balanced Balanced (compile left) _ (h left) λ a ha.
          >>=-Holds Balanced Balanced (compile right) _ (h right)
            λ b hb. grind (arith, count_if-append, length-append)

    compile_membership-Balanced :
        (left : Expression V) (op : Text) (vs : List V)
        → Plain op
        → Holds Balanced (compile_membership l compile left op vs)
    unfolding compile_membership
    compile_membership-Balanced left op [] plain =
        elim (op == codes "IN")
          as (λ b. marks (if b then codes "(1 = 0)" else codes "(1 = 1)") ≡ 0) [
            | true ↦ refl
            | false ↦ refl
          ]
    compile_membership-Balanced left op (v ∷ vs) plain =
        let count = marks-placeholders (v ∷ vs) in
        let size = length-map {A = V} one (v ∷ vs) in
        >>=-Holds Balanced Balanced (compile left) _ (h left)
          λ a ha. grind (arith, count_if-append, length-append)

    compile_in-Balanced :
        (left : Expression V) (op : Text) (right : Expression V)
        → Plain op
        → Holds Balanced (compile_in l compile left op right)
    unfolding compile_in
    compile_in-Balanced left op (literal (many vs)) plain =
        compile_membership-Balanced left op vs plain
    compile_in-Balanced left op (literal (one v)) plain =
        compile_operands-Balanced left op (literal (one v)) plain
    compile_in-Balanced left op (column c t) plain =
        compile_operands-Balanced left op (column c t) plain
    compile_in-Balanced left op (binary a o b) plain =
        compile_operands-Balanced left op (binary a o b) plain
    compile_in-Balanced left op (function n xs) plain =
        compile_operands-Balanced left op (function n xs) plain

    compile_binary-Balanced :
        (left : Expression V) (operator : Text) (right : Expression V)
        → Holds Balanced (compile_binary l compile left operator right)
    unfolding compile_binary
    compile_binary-Balanced left operator right =
        >>=-Holds Plain Balanced (validate_operator l operator) _
          (validate_operator-Plain l operator)
          λ op plain.
            if-Holds Balanced (op == codes "IN" || op == codes "NOT IN")
              (compile_in l compile left op right) (compile_operands l compile left op right)
              (compile_in-Balanced left op right plain)
              (compile_operands-Balanced left op right plain)

    compile_chain-Balanced :
        (op : Text) (e : Expression V) → Plain op → Holds Balanced (compile_chain l compile op e)
    unfolding compile_chain
    compile_chain-Balanced op e plain =
        >>=-Holds (All Balanced) Balanced (traverse compile (flatten op e [])) _
          (traverse-Holds Balanced compile (flatten op e []) h)
          λ parts hs.
            let separator : Plain (codes " " ++ op ++ codes " ") = grind (arith, count_if-append) in
            omega (
              arith,
              count_if-append is_mark (join (codes " " ++ op ++ codes " ") (all_sql parts))
                  (codes ")"),
              marks-join (codes " " ++ op ++ codes " ") (all_sql parts) separator,
              total_marks-all_sql parts hs,
            )

    compile_function-Balanced :
        (name : Text) (args : List (Expression V))
        → Holds Balanced (compile_function l compile name args)
    unfolding compile_function
    compile_function-Balanced name args =
        let compiled = traverse-Holds Balanced compile args h in
        if-Holds Balanced (l.upper name == codes "JSON_EXTRACT")
          (traverse compile args >>= json_pair) _
          (>>=-Holds (All Balanced) Balanced (traverse compile args) json_pair compiled
            json_pair-Balanced)
          (>>=-Holds Plain Balanced (validate_function_name l name) _
            (validate_function_name-Plain l name)
            λ func_name plain.
              >>=-Holds (All Balanced) Balanced (traverse compile args) _ compiled λ cs hs. omega (
                arith,
                count_if-append is_mark (func_name ++ codes "(" ++ join comma (all_sql cs))
                    (codes ")"),
                count_if-append is_mark (func_name ++ codes "(") (join comma (all_sql cs)),
                count_if-append is_mark func_name (codes "("),
                marks-join comma (all_sql cs) refl,
                total_marks-all_sql cs hs,
              ))

    compile_node-Balanced : (e : Expression V) → Holds Balanced (compile_node l compile e)
    unfolding compile_node
    compile_node-Balanced (column name table) =
        >>=-Holds Plain Balanced (quote_identifier l name) _ (quote_identifier-Plain l name)
          λ col plain.
            >>=-Holds Plain Balanced (with_table l col (nonempty table)) _
              (with_table-Plain l col (nonempty table) plain) λ sql k. k
    compile_node-Balanced (literal v) = refl
    compile_node-Balanced (binary left operator right) = elim (Bool-cases (is_chain operator)) [
      | inl chain ↦ rw chain (
          compile_chain-Balanced operator (binary left operator right)
            (is_chain-Plain operator chain))
      | inr other ↦ rw other (compile_binary-Balanced left operator right)
    ]
    compile_node-Balanced (function name args) = compile_function-Balanced name (list_of args)

  pub compile-Balanced : (fuel : ℕ) (e : Expression V) → Holds Balanced (compile l fuel e)
  unfolding compile
  compile-Balanced zero e = tt
  compile-Balanced (suc fuel) e = compile_node-Balanced (compile l fuel) (compile-Balanced fuel) e
