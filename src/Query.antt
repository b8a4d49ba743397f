-- ===== src/Query.antt =====
-- packages/db/src/builder: statements and their compilation to SQL with parameters. This file has
-- the tree of ast.ts. A text is its code units; upper case, normalization and the text of a number
-- are the language's.
pub mod Names
pub mod Compiler
pub mod Statements
pub mod Marks
pub mod Placeholders
pub mod Answers
pub mod Done
pub mod Aligned
pub mod Finished
pub mod Total
pub mod Expressions
mod Examples
use pureq.Prelude.{ℕ, ◌≡◌, Bool, true, false, Option, List, count_if, ◌==◌, number_key}
use pureq.Prelude.Text.{Text}

-- the placeholder `?`
abbrev pub is_mark : ℕ → Bool
is_mark c = c == 63

pub record Language : Type 1 where
  pub upper : Text → Text
  pub normalize : Text → Text
  pub Number : Type 0
  pub number_text : Number → Text
  pub number_text_plain : (n : Number) → count_if is_mark (number_text n) ≡ 0

-- What a `throw` says.
pub data Refusal : Type 0 where
  invalid_identifier disallowed_operator disallowed_function disallowed_join missing_arguments
        circular_value undefined_column missing_table wrong_user invalid_number :
      Refusal

pub data Answer {ℓ} (A : Type ℓ) : Type ℓ where
  done : A → Answer A
  refused : Refusal → Answer A
  out_of_fuel : Answer A

infixl 5 ◌>>=◌ ◌>>◌
abbrev pub ◌>>=◌ {ℓ κ} : {A : Type ℓ} {B : Type κ} → Answer A → (A → Answer B) → Answer B
done a >>= f = f a
refused r >>= f = refused r
out_of_fuel >>= f = out_of_fuel

abbrev pub ◌>>◌ {ℓ} : {B : Type ℓ} → Answer (Unit {0}) → Answer B → Answer B
m >> k = m >>= λ _. k

abbrev pub check : Bool → Refusal → Answer (Unit {0})
check true r = done tt
check false r = refused r

-- The value of a literal: an array, or anything else.
pub data Literal (V : Type 0) : Type 0 where
  one : V → Literal V
  many : List V → Literal V

mutual
  pub data Expression (V : Type 0) : Type 0 where
    column : Text → Option Text → Expression V
    literal : Literal V → Expression V
    binary : Expression V → Text → Expression V → Expression V
    function : Text → Args V → Expression V

  pub data Args (V : Type 0) : Type 0 where
    no_args : Args V
    arg : Expression V → Args V → Args V

-- A column of a query is a name or an expression.
pub data Column (V : Type 0) : Type 0 where
  named : Text → Column V
  computed : Expression V → Column V

pub data Columns (V : Type 0) : Type 0 where
  all_columns : Columns V
  listed : List (Column V) → Columns V

pub record Join (V : Type 0) : Type 0 where
  pub kind : Text
  pub table : Text
  pub on : Expression V

pub record Order : Type 0 where
  pub order_column : Text
  pub direction : Text

pub record SelectStatement (V N : Type 0) : Type 0 where
  pub table : Text
  pub columns : Columns V
  pub joins : List (Join V)
  pub where_clause : Option (Expression V)
  pub group_by : List Text
  pub having : Option (Expression V)
  pub limit : Option N
  pub offset : Option N
  pub order_by : List Order

pub record InsertStatement (V : Type 0) : Type 0 where
  pub table : Text
  pub values : List (Text × Literal V)

pub record UpdateStatement (V : Type 0) : Type 0 where
  pub table : Text
  pub values : List (Text × Literal V)
  pub where_clause : Option (Expression V)

pub record DeleteStatement (V : Type 0) : Type 0 where
  pub table : Text
  pub where_clause : Option (Expression V)

pub data Statement (V N : Type 0) : Type 0 where
  select : SelectStatement V N → Statement V N
  insert : InsertStatement V → Statement V N
  update : UpdateStatement V → Statement V N
  delete : DeleteStatement V → Statement V N
