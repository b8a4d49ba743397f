-- ===== src/Query/Examples.antt =====
-- Statements compiled in a language that knows ASCII.
use pureq.Query.{
  function, no_args, arg, is_mark, Language, invalid_identifier, done, refused, out_of_fuel, one,
  many, Expression, column, literal, binary, named, listed, InsertStatement, Statement, select,
  delete,
}
use pureq.Query.Names.{is_between}
use pureq.Query.Statements.{compile_statement, compile_upsert}
use pureq.Query.Aligned.{marks-compile_statement}
use pureq.Query.Names.{validate_expression}
use pureq.Query.Total.{compile_statement-ne-out_of_fuel}
use pureq.Query.Expressions.{by_name, value, eq, and, combine}
use pureq.Prelude.{
  ℕ, ◌-◌, ◌≡◌, ◌≢◌, refl, Bool, true, false, none, some, [], ◌∷◌, map, count_if, if◌then◌else◌,
}
use pureq.Prelude.Text.{Text, codes}

abbrev letter_upper : ℕ → ℕ
letter_upper c = if is_between 97 122 c then c - 32 else c

-- the numbers 1 and 0
abbrev bit_text : Bool → Text
bit_text true = codes "1"
bit_text false = codes "0"

bit_text_plain : (n : Bool) → count_if is_mark (bit_text n) ≡ 0
bit_text_plain true = refl
bit_text_plain false = refl

abbrev ascii : Language
ascii = record {
  upper = map letter_upper;
  normalize = λ t. t;
  Number = Bool;
  number_text = bit_text;
  number_text_plain = bit_text_plain;
}

-- WHERE a = v AND b IN (…) AND c = w
abbrev filter : ℕ → ℕ → ℕ → Expression ℕ
filter v w x = and 1 (
    eq (by_name (codes "a")) (value (one v))
    ∷ binary (column (codes "b") none) (codes "in") (literal (many (w ∷ x ∷ [])))
    ∷ eq (by_name (codes "c")) (value (one w))
    ∷ [])

abbrev query : ℕ → ℕ → ℕ → Statement ℕ Bool
query v w x = select (record {
  table = codes "users";
  columns = listed (named (codes "id") ∷ []);
  joins = [];
  where_clause = some (filter v w x);
  group_by = [];
  having = none;
  limit = some true;
  offset = none;
  order_by = [];
})

abbrev query_sql : Text
query_sql =
    codes
      "SELECT \"id\" FROM \"users\" WHERE ((\"a\" = ?) AND (\"b\" IN (?, ?)) AND (\"c\" = ?)) LIMIT 1"

compiles-query :
    compile_statement ascii (query 5 6 7) ≡ done (query_sql, one 5 ∷ one 6 ∷ one 7 ∷ one 6 ∷ [])
unfolding compile_statement combine
compiles-query = refl

abbrev injection : Statement ℕ Bool
injection = delete (record { table = codes "users; --"; where_clause = none })

refuses-injection : compile_statement ascii injection ≡ refused invalid_identifier
unfolding compile_statement
refuses-injection = refl

abbrev one_row : InsertStatement ℕ
one_row = record { table = codes "t"; values = (codes "a", one 1) ∷ [] }

-- The conflict target is put in unchecked.
upserts-injection :
    compile_upsert ascii one_row (codes "x\") DO NOTHING; --" ∷ [])
    ≡ done (
      codes
          "INSERT INTO \"t\" (\"a\") VALUES (?) ON CONFLICT (\"x\") DO NOTHING; --\") DO UPDATE SET \"a\" = EXCLUDED.\"a\"",
      one 1 ∷ [],
    )
unfolding compile_upsert
upserts-injection = refl

marks-compile_statement_example : count_if is_mark query_sql ≡ 4
marks-compile_statement_example =
    marks-compile_statement ascii (query 5 6 7) query_sql (one 5 ∷ one 6 ∷ one 7 ∷ one 6 ∷ [])
      compiles-query

compile_statement-ne-out_of_fuel_example : compile_statement ascii (query 5 6 7) ≢ out_of_fuel
compile_statement-ne-out_of_fuel_example = compile_statement-ne-out_of_fuel ascii (query 5 6 7)

abbrev name_a : Expression ℕ
name_a = column (codes "a") none

abbrev name_b : Expression ℕ
name_b = column (codes "b") (some (codes "t"))

abbrev extract : Expression ℕ
extract = function (codes "json_extract") (arg name_b (arg (literal (one 1)) no_args))

validates-extract : validate_expression ascii (λ v. false) extract ≡ done tt
unfolding validate_expression
validates-extract = refl
