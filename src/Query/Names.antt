-- ===== src/Query/Names.antt =====
-- utils.ts: which names, operators and functions are allowed, and the quoting of a name. The test of
-- a literal for circular references is a parameter.
use pureq.Query.{
  Language, invalid_identifier, disallowed_operator, disallowed_function, circular_value, Answer,
  done, ◌>>=◌, ◌>>◌, check, Literal, Expression, Args, column, literal, binary, function, no_args,
  arg,
}
use pureq.Prelude.{
  ℕ, Bool, false, not, ◌&&◌, ◌||◌, Option, none, some, List, [], ◌∷◌, ◌++◌, some_of, leb, ◌==◌,
  number_key, if◌then◌else◌,
}
use pureq.Prelude.Text.{Text, codes, codes_key}

-- CONTROL_CHARS_REGEX
abbrev pub is_control : ℕ → Bool
is_control c = c == 0 || c == 10 || c == 13 || c == 9 || c == 8 || c == 26

abbrev pub is_between : ℕ → ℕ → ℕ → Bool
is_between a b c = leb a c && leb c b

abbrev pub is_letter : ℕ → Bool
is_letter c = is_between 97 122 c || is_between 65 90 c || c == 95

abbrev pub is_word : ℕ → Bool
is_word c = is_letter c || is_between 48 57 c

-- IDENTIFIER_REGEX
abbrev pub is_identifier : Text → Bool
is_identifier [] = false
is_identifier (c ∷ cs) = is_letter c && not (some_of (λ d. not (is_word d)) cs)

-- ALLOWED_OPERATORS
abbrev pub allowed_operators : List Text
allowed_operators =
    codes "="
    ∷ codes "!="
    ∷ codes "<"
    ∷ codes "<="
    ∷ codes ">"
    ∷ codes ">="
    ∷ codes "LIKE"
    ∷ codes "ILIKE"
    ∷ codes "IN"
    ∷ codes "NOT IN"
    ∷ codes "IS"
    ∷ codes "IS NOT"
    ∷ codes "AND"
    ∷ codes "OR"
    ∷ codes "||"
    ∷ []

-- ALLOWED_FUNCTIONS
abbrev pub allowed_functions : List Text
allowed_functions =
    codes "COUNT"
    ∷ codes "SUM"
    ∷ codes "AVG"
    ∷ codes "MIN"
    ∷ codes "MAX"
    ∷ codes "COALESCE"
    ∷ codes "LOWER"
    ∷ codes "UPPER"
    ∷ codes "NOW"
    ∷ codes "DATE"
    ∷ codes "SUBSTR"
    ∷ codes "SUBSTRING"
    ∷ codes "JSON_EXTRACT"
    ∷ []

abbrev pub includes : List Text → Text → Bool
includes names t = some_of (λ n. n == t) names

-- `"${name.replace(/"/g, '""')}"` doubles each quote.
abbrev pub escape : Text → Text
escape [] = []
escape (c ∷ cs) = if c == 34 then 34 ∷ 34 ∷ escape cs else c ∷ escape cs

-- A text that is absent or empty counts as no text.
abbrev pub nonempty : Option Text → Option Text
nonempty none = none
nonempty (some []) = none
nonempty (some (c ∷ cs)) = some (c ∷ cs)

module _ (l : Language) where
  unfoldable pub validate_identifier : Text → Answer (Unit {0})
  validate_identifier name = do
    check (not (some_of is_control name)) invalid_identifier
    check (l.normalize name == name) invalid_identifier
    check (is_identifier (l.normalize name)) invalid_identifier

  unfoldable pub quote_identifier : Text → Answer Text
  unfolding validate_identifier
  quote_identifier name = do
    validate_identifier name
    done (codes "\"" ++ escape name ++ codes "\"")

  unfoldable pub validate_operator : Text → Answer Text
  validate_operator operator = do
    check (includes allowed_operators (l.upper operator)) disallowed_operator
    done (l.upper operator)

  unfoldable pub validate_function_name : Text → Answer Text
  validate_function_name name = do
    check (includes allowed_functions (l.upper name)) disallowed_function
    done (l.upper name)

  module _ {V : Type 0} (is_circular : Literal V → Bool) where
    unfoldable pub validate_column : Text → Option Text → Answer (Unit {0})
    unfolding validate_identifier
    validate_column name none = validate_identifier name
    validate_column name (some table) = do validate_identifier table; validate_identifier name

    unfoldable mutual
      unfolding validate_column validate_operator validate_function_name

      -- Of an expression that is of the type of ast.ts, where a function has its list of arguments. Any
      -- other object, such as a function without the list, which the code accepts, is left out.
      pub validate_expression : Expression V → Answer (Unit {0})
      validate_expression (column name table) = validate_column name (nonempty table)
      validate_expression (literal v) = check (not (is_circular v)) circular_value
      validate_expression (binary left operator right) = do
        o ← validate_operator operator
        validate_expression left
        validate_expression right
      validate_expression (function name args) = do
        n ← validate_function_name name
        validate_args args

      pub validate_args : Args V → Answer (Unit {0})
      validate_args no_args = done tt
      validate_args (arg e es) = do validate_expression e; validate_args es
