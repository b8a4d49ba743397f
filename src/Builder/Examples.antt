-- ===== src/Builder/Examples.antt =====
-- Queries over users and their orders, with numbers as values.
use pureq.Query.{
  Language, done, refused, undefined_column, wrong_user, ◌>>=◌, one, many, Expression, column,
  literal, binary, function, named, computed, Columns, all_columns, listed, Join,
}
use pureq.Query.Done.{IsDone}
use pureq.Query.Names.{validate_identifier, validate_expression}
use pureq.Builder.{mask, hide, Table, QueryContext, Constants, SelectBuilder, conjunction}
use pureq.Builder.Security.{masked_column}
use pureq.Builder.Pushdown.{filter_of, apply_where, alias_of_table, apply_policy_pushdown}
use pureq.Builder.Prepare.{expanded, expand_columns, inserted_values}
use pureq.Builder.Steps.{join}
use pureq.Builder.Aliases.{IsWellJoined, joined, join-IsWellJoined}
use pureq.Builder.Rows.{IsAnd, admits, apply_where_rows}
use pureq.Builder.Inserted.{IsOwn, inserted_values-IsOwn}
use pureq.Prelude.{
  ℕ, ◌≡◌, refl, Bool, true, false, ◌&&◌, none, some, List, [], ◌∷◌, ◌++◌, map, ◌==◌, if◌then◌else◌,
  number_key,
}
use pureq.Prelude.JsMap.{get, set}
use pureq.Prelude.Text.{Text, codes, codes_key}

abbrev numbers : Constants ℕ
numbers = record {
  same_value = λ a b. a == b;
  is_circular = λ v. false;
  number_one = 1;
  number_three = 3;
  stars = 42;
}

abbrev user_id : Text
user_id = codes "userId"

abbrev users : Table ℕ
users = record {
  name = codes "users";
  columns =
      (codes "id", none)
      ∷ (user_id, none)
      ∷ (
        codes "email",
        some (record { pii = true; redact = some mask; scope = codes "admin" ∷ [] }),
      )
      ∷ (codes "salary", some (record { pii = false; redact = some hide; scope = codes "hr" ∷ [] }))
      ∷ [];
  rls = none;
}

abbrev orders : Table ℕ
orders = record {
  name = codes "orders";
  columns = (codes "id", none) ∷ (user_id, none) ∷ [];
  rls = none;
}

abbrev seven : QueryContext ℕ
seven = record { scopes = codes "sales" ∷ []; user_id = some 7 }

-- Of a row in which every column is 7.
abbrev row_value : Expression ℕ → ℕ
row_value (column name t) = 7
row_value (literal (one v)) = v
row_value (literal (many vs)) = 0
row_value (binary left op right) = 0
row_value (function name args) = 0

unfoldable truth : Expression ℕ → Bool
truth (column name t) = true
truth (literal value) = true
truth (function name args) = true
truth (binary left op right) =
    let a = truth left in
    let b = truth right in if op == codes "AND" then a && b else row_value left == row_value right

truth-IsAnd : IsAnd truth
unfolding truth
truth-IsAnd left right = refl

abbrev by_user : Expression ℕ
by_user =
    binary (column (codes "id") (some (codes "users"))) (codes "=")
      (column user_id (some (codes "orders")))

abbrev joins : List (Join ℕ)
joins = record { kind = codes "inner"; table = codes "orders"; on = by_user } ∷ []

abbrev builder : Columns ℕ → List (Join ℕ) → SelectBuilder ℕ ℕ
builder columns joins = record {
  statement = record {
    table = codes "users";
    columns = columns;
    joins = joins;
    where_clause = none;
    group_by = [];
    having = none;
    limit = none;
    offset = none;
    order_by = [];
  };
  table_obj = some users;
  joined_tables = (codes "o", orders) ∷ [];
  context = some seven;
}

abbrev own_rows : Text → Expression ℕ
own_rows table_name = binary (column user_id (some table_name)) (codes "=") (literal (one 7))

-- `"*"` without a join: the address is masked and the salary is left out.
columns_test :
    (apply_policy_pushdown numbers (expand_columns (builder all_columns [])) >>= λ s.
    done s.columns)
    ≡ done (
        listed (
          named (codes "id")
          ∷ named user_id
          ∷ computed (masked_column numbers (codes "users") (codes "email"))
          ∷ []))
unfolding apply_policy_pushdown expanded get
columns_test = refl

-- With a join the address is not masked.
joined_columns_test :
    (apply_policy_pushdown numbers (expand_columns (builder all_columns joins)) >>= λ s.
    done s.columns)
    ≡ done (
        listed (
          computed (column (codes "id") (some (codes "users")))
          ∷ computed (column user_id (some (codes "users")))
          ∷ computed (column (codes "email") (some (codes "users")))
          ∷ computed (column (codes "id") (some (codes "o")))
          ∷ computed (column user_id (some (codes "o")))
          ∷ []))
unfolding apply_policy_pushdown expanded get
joined_columns_test = refl

-- A name that the joined table does not have
unknown_test :
    apply_policy_pushdown numbers (
      expand_columns (
        builder
          (listed (named (codes "email") ∷ named (codes "salary") ∷ named (codes "name") ∷ []))
          joins))
    ≡ refused undefined_column
unfolding apply_policy_pushdown expanded get
unknown_test = refl

-- The filter of the joined table stands in the join, that of the base table in the row condition.
filters_test :
    (apply_policy_pushdown numbers (expand_columns (builder all_columns joins)) >>= λ s.
    done s.where_clause)
    ≡ done (some (own_rows (codes "users")))
unfolding apply_policy_pushdown expanded get
filters_test = refl

join_filters_test :
    (apply_policy_pushdown numbers (expand_columns (builder all_columns joins)) >>= λ s.
    done (map (λ j. j.on) s.joins))
    ≡ done (conjunction by_user (own_rows (codes "o")) ∷ [])
unfolding apply_policy_pushdown expanded get
join_filters_test = refl

-- Of two joins with one table, the first has the filter twice and the second not at all.
joined_twice_test :
    (apply_policy_pushdown numbers (expand_columns (builder all_columns (joins ++ joins))) >>= λ s.
    done (map (λ j. j.on) s.joins))
    ≡ done (
        conjunction (conjunction by_user (own_rows (codes "o"))) (own_rows (codes "o"))
        ∷ by_user
        ∷ [])
unfolding apply_policy_pushdown expanded get
joined_twice_test = refl

abbrev asked : SelectBuilder ℕ ℕ
asked = builder (listed (named (codes "id") ∷ computed (column (codes "salary") none) ∷ [])) joins

orders_joined : IsWellJoined (builder all_columns joins)
unfolding alias_of_table
orders_joined = ((refl, tt), (tt, tt), (refl, tt))

apply_where_rows_example :
    admits truth (apply_where users (some seven) (some by_user))
    ≡ (admits truth (some by_user) && admits truth (filter_of users (codes "users") seven))
apply_where_rows_example = apply_where_rows truth truth-IsAnd users seven (some by_user)

inserted_values-IsOwn_example :
    IsOwn numbers 7
      ((codes "id", one 3) ∷ [])
      (inserted_values numbers orders (some seven) ((codes "id", one 3) ∷ []))
unfolding get
inserted_values-IsOwn_example =
    inserted_values-IsOwn numbers 7 refl ((codes "id", one 3) ∷ []) orders seven refl refl

other_user_test :
    inserted_values numbers orders (some seven) ((user_id, one 8) ∷ []) ≡ refused wrong_user
unfolding inserted_values get
other_user_test = refl

-- A language without upper case
abbrev letters : Language
letters = record {
  upper = λ t. t;
  normalize = λ t. t;
  Number = ℕ;
  number_text = λ n. [];
  number_text_plain = λ n. refl;
}

join-IsWellJoined_example :
    IsDone
      (λ r.
        (r ≡ joined (codes "left") (codes "p") users by_user (builder all_columns joins))
        × IsWellJoined r)
      (join letters numbers (codes "left") (codes "p") users by_user (builder all_columns joins))
unfolding get validate_identifier validate_expression
join-IsWellJoined_example =
    join-IsWellJoined letters numbers (codes "left") (codes "p") users by_user
      (builder all_columns joins) tt tt refl (refl, tt) orders_joined

-- A second join under the same alias takes the place of the first one's table, which is then found
-- under no alias: neither its filter nor the security of its columns is applied.
same_alias_test :
    (join letters numbers (codes "left") (codes "o") users by_user (builder all_columns joins)
      >>= λ b. apply_policy_pushdown numbers b >>= λ s. done (map (λ j. j.on) s.joins))
    ≡ done (by_user ∷ conjunction by_user (own_rows (codes "o")) ∷ [])
unfolding join set apply_policy_pushdown expanded get
same_alias_test = refl
