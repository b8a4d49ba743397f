-- ===== src/Query/Compiler.antt =====
-- GenericCompiler of compiler.ts and PostgresCompiler of postgres-compiler.ts. The recursion of
-- compileExpression is on fuel; `compile_node` is its body, given the recursive call.
use pureq.Query.{
  Language, missing_arguments, Answer, done, refused, out_of_fuel, ◌>>=◌, Literal, one, many,
  Expression, Args, column, literal, binary, function, no_args, arg,
}
use pureq.Query.Names.{quote_identifier, validate_operator, validate_function_name, nonempty}
use pureq.Prelude.{
  ℕ, zero, suc, max, Bool, ◌||◌, Option, none, some, List, [], ◌∷◌, ◌++◌, map, ◌==◌, if◌then◌else◌,
}
use pureq.Prelude.Text.{Text, codes, codes_key}

-- `{ sql, params }`
abbrev pub Compiled : Type 0 → Type 0
Compiled V = Text × List (Literal V)

-- `texts.join(separator)`
abbrev pub join : Text → List Text → Text
join separator [] = []
join separator (t ∷ []) = t
join separator (t ∷ u ∷ ts) = t ++ separator ++ join separator (u ∷ ts)

-- `xs.map(f)` with an f that may throw
abbrev pub traverse {ℓ κ} : {A : Type ℓ} {B : Type κ} → (A → Answer B) → List A → Answer (List B)
traverse f [] = done []
traverse f (x ∷ xs) = do y ← f x; ys ← traverse f xs; done (y ∷ ys)

abbrev pub comma : Text
comma = codes ", "

-- `xs.map(() => "?").join(", ")`
abbrev pub placeholders {ℓ} : {A : Type ℓ} → List A → Text
placeholders xs = join comma (map (λ x. codes "?") xs)

abbrev pub list_of : {V : Type 0} → Args V → List (Expression V)
list_of no_args = []
list_of (arg e es) = e ∷ list_of es

abbrev pub all_sql : {V : Type 0} → List (Compiled V) → List Text
all_sql cs = map (λ c. c.0) cs

abbrev pub all_params : {V : Type 0} → List (Compiled V) → List (Literal V)
all_params [] = []
all_params (c ∷ cs) = c.1 ++ all_params cs

-- The loop that walks down the left operands, with the right ones on the stack: the top is in front.
unfoldable pub flatten :
    {V : Type 0} → Text → Expression V → List (Expression V) → List (Expression V)
flatten op (binary left o right) stack =
    if o == op then flatten op left (right ∷ stack) else binary left o right ∷ stack
flatten op current stack = current ∷ stack

-- the operator of a chain
abbrev pub is_chain : Text → Bool
is_chain o = o == codes "OR" || o == codes "AND"

abbrev pub json_pair : {V : Type 0} → List (Compiled V) → Answer (Compiled V)
json_pair (col ∷ path ∷ others) =
    done (codes "(" ++ col.0 ++ codes " ->> " ++ path.0 ++ codes ")", col.1 ++ path.1)
json_pair _ = refused missing_arguments

module _ (l : Language) where
  abbrev pub with_table : Text → Option Text → Answer Text
  with_table col none = done col
  with_table col (some table) = do t ← quote_identifier l table; done (t ++ codes "." ++ col)

module _ (l : Language) {V : Type 0} where
  module _ (compile : Expression V → Answer (Compiled V)) where
    unfoldable pub compile_chain : Text → Expression V → Answer (Compiled V)
    unfolding flatten
    compile_chain op e = do
      parts ← traverse compile (flatten op e [])
      done (
        codes "(" ++ join (codes " " ++ op ++ codes " ") (all_sql parts) ++ codes ")",
        all_params parts,
      )

    unfoldable pub compile_operands : Expression V → Text → Expression V → Answer (Compiled V)
    compile_operands left op right = do
      a ← compile left
      b ← compile right
      done (codes "(" ++ a.0 ++ codes " " ++ op ++ codes " " ++ b.0 ++ codes ")", a.1 ++ b.1)

    -- IN and NOT IN with a list.
    unfoldable pub compile_membership : Expression V → Text → List V → Answer (Compiled V)
    compile_membership left op [] =
        done (if op == codes "IN" then codes "(1 = 0)" else codes "(1 = 1)", [])
    compile_membership left op (v ∷ vs) = do
      a ← compile left
      done (
        codes "(" ++ a.0 ++ codes " " ++ op ++ codes " (" ++ placeholders (v ∷ vs) ++ codes "))",
        a.1 ++ map one (v ∷ vs),
      )

    unfoldable pub compile_in : Expression V → Text → Expression V → Answer (Compiled V)
    unfolding compile_operands compile_membership
    compile_in left op (literal (many vs)) = compile_membership left op vs
    compile_in left op right = compile_operands left op right

    unfoldable pub compile_binary : Expression V → Text → Expression V → Answer (Compiled V)
    unfolding compile_in validate_operator
    compile_binary left operator right = do
      op ← validate_operator l operator
      if op == codes "IN" || op == codes "NOT IN"
          then compile_in left op right
          else compile_operands left op right

    unfoldable pub compile_function : Text → List (Expression V) → Answer (Compiled V)
    unfolding validate_function_name
    compile_function name args =
        if l.upper name == codes "JSON_EXTRACT" then traverse compile args >>= json_pair else do
          func_name ← validate_function_name l name
          cs ← traverse compile args
          done (func_name ++ codes "(" ++ join comma (all_sql cs) ++ codes ")", all_params cs)

    unfoldable pub compile_node : Expression V → Answer (Compiled V)
    unfolding compile_chain compile_binary compile_function quote_identifier
    compile_node (column name table) = do
      col ← quote_identifier l name
      sql ← with_table l col (nonempty table)
      done (sql, [])
    compile_node (literal v) = done (codes "?", v ∷ [])
    compile_node (binary left operator right) =
        if is_chain operator
        then compile_chain operator (binary left operator right)
        else compile_binary left operator right
    compile_node (function name args) = compile_function name (list_of args)

  unfoldable pub compile : ℕ → Expression V → Answer (Compiled V)
  unfolding compile_node
  compile zero e = out_of_fuel
  compile (suc fuel) e = compile_node (compile fuel) e

abbrev mutual
  pub depth : {V : Type 0} → Expression V → ℕ
  depth (column name table) = 1
  depth (literal v) = 1
  depth (binary left o right) = suc (max (depth left) (depth right))
  depth (function name args) = suc (depth_args args)

  pub depth_args : {V : Type 0} → Args V → ℕ
  depth_args no_args = 0
  depth_args (arg e es) = max (depth e) (depth_args es)
