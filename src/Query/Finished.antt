-- ===== src/Query/Finished.antt =====
-- The fuel that compile_expression takes is enough.
use pureq.Query.{
  Language, Refusal, invalid_identifier, disallowed_operator, disallowed_function, Answer, done,
  refused, out_of_fuel, ◌>>=◌, check, one, many, Expression, Args, no_args, arg, column, literal,
  binary, function,
}
use pureq.Query.Names.{
  is_control, is_identifier, allowed_operators, allowed_functions, quote_identifier,
  validate_identifier, validate_operator, validate_function_name, nonempty, includes,
}
use pureq.Query.Compiler.{
  Compiled, traverse, json_pair, with_table, compile_chain, compile_operands, compile_in,
  compile_binary, compile_node, compile, flatten, is_chain, list_of, depth, depth_args,
}
use pureq.Prelude.{
  ℕ, zero, suc, ◌≤◌, ◌≢◌, refl, Bool, true, false, not, ◌||◌, Option, none, some, List, [], ◌∷◌,
  some_of, All, All-map, ◌==◌, if◌then◌else◌, arith,
}
use pureq.Prelude.Text.{Text, codes, codes_key, same_codes_iff}

abbrev pub Finishes {ℓ} : {A : Type ℓ} → Answer A → Type 0
Finishes (done a) = Unit
Finishes (refused r) = Unit
Finishes out_of_fuel = ⊥

pub Finishes-ne {ℓ} : {A : Type ℓ} (m : Answer A) → Finishes m → m ≢ out_of_fuel
Finishes-ne (done a) h = cc
Finishes-ne (refused r) h = cc
Finishes-ne out_of_fuel h = absurd h

pub >>=-Finishes {ℓ κ} :
    {A : Type ℓ} {B : Type κ} (m : Answer A) (k : A → Answer B)
    → Finishes m
    → ((a : A) → Finishes (k a))
    → Finishes (m >>= k)
>>=-Finishes (done a) k h j = j a
>>=-Finishes (refused r) k h j = tt
>>=-Finishes out_of_fuel k h j = h

traverse-Finishes {ℓ κ} :
    {A : Type ℓ} {B : Type κ} (f : A → Answer B) (xs : List A)
    → All (λ x. Finishes (f x)) xs
    → Finishes (traverse f xs)
traverse-Finishes f [] h = tt
traverse-Finishes f (x ∷ xs) h =
    >>=-Finishes (f x) _ h.0
      λ y. >>=-Finishes (traverse f xs) _ (traverse-Finishes f xs h.1) λ ys. tt

pub traverse_always-Finishes {ℓ κ} :
    {A : Type ℓ} {B : Type κ} (f : A → Answer B) (xs : List A)
    → ((x : A) → Finishes (f x))
    → Finishes (traverse f xs)
traverse_always-Finishes f [] h = tt
traverse_always-Finishes f (x ∷ xs) h =
    >>=-Finishes (f x) _ (h x)
      λ y. >>=-Finishes (traverse f xs) _ (traverse_always-Finishes f xs h) λ ys. tt

pub check-Finishes : (b : Bool) (r : Refusal) → Finishes (check b r)
check-Finishes true r = tt
check-Finishes false r = tt

if-Finishes {ℓ} :
    {A : Type ℓ} (b : Bool) (m n : Answer A)
    → Finishes m
    → Finishes n
    → Finishes (if b then m else n)
if-Finishes true m n h k = h
if-Finishes false m n h k = k

json_pair-Finishes : {V : Type 0} (cs : List (Compiled V)) → Finishes (json_pair cs)
json_pair-Finishes [] = tt
json_pair-Finishes (c ∷ []) = tt
json_pair-Finishes (c ∷ d ∷ cs) = tt

module _ (l : Language) where
  validate_identifier-Finishes : (name : Text) → Finishes (validate_identifier l name)
  unfolding validate_identifier
  validate_identifier-Finishes name =
      >>=-Finishes (check (not (some_of is_control name)) invalid_identifier) _
        (check-Finishes (not (some_of is_control name)) invalid_identifier)
        λ u.
          >>=-Finishes (check (l.normalize name == name) invalid_identifier) _
            (check-Finishes (l.normalize name == name) invalid_identifier)
            λ u. check-Finishes (is_identifier (l.normalize name)) invalid_identifier

  pub quote_identifier-Finishes : (name : Text) → Finishes (quote_identifier l name)
  unfolding quote_identifier
  quote_identifier-Finishes name =
      >>=-Finishes (validate_identifier l name) _ (validate_identifier-Finishes name) λ u. tt

  validate_operator-Finishes : (o : Text) → Finishes (validate_operator l o)
  unfolding validate_operator
  validate_operator-Finishes o =
      >>=-Finishes (check (includes allowed_operators (l.upper o)) disallowed_operator) _
        (check-Finishes (includes allowed_operators (l.upper o)) disallowed_operator) λ u. tt

  validate_function_name-Finishes : (name : Text) → Finishes (validate_function_name l name)
  unfolding validate_function_name
  validate_function_name-Finishes name =
      >>=-Finishes (check (includes allowed_functions (l.upper name)) disallowed_function) _
        (check-Finishes (includes allowed_functions (l.upper name)) disallowed_function) λ u. tt

  with_table-Finishes : (col : Text) (table : Option Text) → Finishes (with_table l col table)
  with_table-Finishes col none = tt
  with_table-Finishes col (some table) =
      >>=-Finishes (quote_identifier l table) _ (quote_identifier-Finishes table) λ t. tt

abbrev pub Shallow : {V : Type 0} → ℕ → List (Expression V) → Type 0
Shallow n es = All (λ e. depth e ≤ n) es

flatten-Shallow :
    {V : Type 0} (op : Text) (e : Expression V) (stack : List (Expression V)) (n : ℕ)
    → depth e ≤ n
    → Shallow n stack
    → Shallow n (flatten op e stack)
unfolding flatten
flatten-Shallow op (column c t) stack n h k = (h, k)
flatten-Shallow op (literal v) stack n h k = (h, k)
flatten-Shallow op (function c xs) stack n h k = (h, k)
flatten-Shallow op (binary left o right) stack n h k =
    elim (o == op)
      as (λ b.
        Shallow n (if b then flatten op left (right ∷ stack) else binary left o right ∷ stack)) [
          | true ↦ flatten-Shallow op left (right ∷ stack) n (omega arith) (omega arith, k)
          | false ↦ (h, k)
        ]

pub flatten_self-Shallow :
    {V : Type 0} (op : Text) (left right : Expression V) (n : ℕ)
    → depth left ≤ n
    → depth right ≤ n
    → Shallow n (flatten op (binary left op right) [])
unfolding flatten
flatten_self-Shallow op left right n h k =
    rw ((same_codes_iff op op).1 refl) (flatten-Shallow op left (right ∷ []) n h (k, tt))

pub list_of-Shallow :
    {V : Type 0} (es : Args V) (n : ℕ) → depth_args es ≤ n → Shallow n (list_of es)
list_of-Shallow no_args n h = tt
list_of-Shallow (arg e es) n h = (omega arith, list_of-Shallow es n (omega arith))

module _ (l : Language) {V : Type 0} where
  module _ (compile_v : Expression V → Answer (Compiled V)) (n : ℕ)
      (h : (e : Expression V) → depth e ≤ n → Finishes (compile_v e)) where
    Shallow-Finishes : (es : List (Expression V)) → Shallow n es → Finishes (traverse compile_v es)
    Shallow-Finishes es s = traverse-Finishes compile_v es (All-map h es s)

    compile_operands-Finishes :
        (left : Expression V) (op : Text) (right : Expression V)
        → depth left ≤ n
        → depth right ≤ n
        → Finishes (compile_operands l compile_v left op right)
    unfolding compile_operands
    compile_operands-Finishes left op right i j =
        >>=-Finishes (compile_v left) _ (h left i)
          λ a. >>=-Finishes (compile_v right) _ (h right j) λ b. tt

    compile_in-Finishes :
        (left : Expression V) (op : Text) (right : Expression V)
        → depth left ≤ n
        → depth right ≤ n
        → Finishes (compile_in l compile_v left op right)
    unfolding compile_in
    compile_in-Finishes left op (literal (many [])) i j = tt
    compile_in-Finishes left op (literal (many (v ∷ vs))) i j =
        >>=-Finishes (compile_v left) _ (h left i) λ a. tt
    compile_in-Finishes left op (literal (one v)) i j =
        compile_operands-Finishes left op (literal (one v)) i j
    compile_in-Finishes left op (column c t) i j =
        compile_operands-Finishes left op (column c t) i j
    compile_in-Finishes left op (binary a o b) i j =
        compile_operands-Finishes left op (binary a o b) i j
    compile_in-Finishes left op (function c xs) i j =
        compile_operands-Finishes left op (function c xs) i j

    compile_node-Finishes :
        (e : Expression V) → depth e ≤ suc n → Finishes (compile_node l compile_v e)
    unfolding compile_node
    compile_node-Finishes (column name table) s =
        >>=-Finishes (quote_identifier l name) _ (quote_identifier-Finishes l name) λ col.
          >>=-Finishes (with_table l col (nonempty table)) _
            (with_table-Finishes l col (nonempty table)) λ sql. tt
    compile_node-Finishes (literal v) s = tt
    compile_node-Finishes (binary left operator right) s =
        if-Finishes (is_chain operator)
          (compile_chain l compile_v operator (binary left operator right))
          (compile_binary l compile_v left operator right)
          (>>=-Finishes (traverse compile_v (flatten operator (binary left operator right) [])) _
            (Shallow-Finishes (flatten operator (binary left operator right) [])
              (flatten_self-Shallow operator left right n (omega arith) (omega arith)))
            λ parts. tt)
          (>>=-Finishes (validate_operator l operator) _ (validate_operator-Finishes l operator)
            λ op.
              if-Finishes (op == codes "IN" || op == codes "NOT IN") _ _
                (compile_in-Finishes left op right (omega arith) (omega arith))
                (compile_operands-Finishes left op right (omega arith) (omega arith)))
    compile_node-Finishes (function name args) s =
        let compiled = Shallow-Finishes (list_of args) (list_of-Shallow args n (omega arith)) in
        if-Finishes (l.upper name == codes "JSON_EXTRACT") _ _
          (>>=-Finishes (traverse compile_v (list_of args)) json_pair compiled json_pair-Finishes)
          (>>=-Finishes (validate_function_name l name) _ (validate_function_name-Finishes l name)
            λ func_name. >>=-Finishes (traverse compile_v (list_of args)) _ compiled λ cs. tt)

  pub depth_pos : (e : Expression V) → 1 ≤ depth e
  depth_pos (column c t) = omega arith
  depth_pos (literal v) = omega arith
  depth_pos (binary a o b) = omega arith
  depth_pos (function c xs) = omega arith

  pub compile-Finishes :
      (fuel : ℕ) (e : Expression V) → depth e ≤ fuel → Finishes (compile l fuel e)
  unfolding compile
  compile-Finishes zero e h = absurd (omega (arith, depth_pos e))
  compile-Finishes (suc fuel) e h =
      compile_node-Finishes (compile l fuel) fuel (compile-Finishes fuel) e h
