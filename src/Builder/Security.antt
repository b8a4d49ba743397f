-- ===== src/Builder/Security.antt =====
-- applyColumnSecurity: the columns that a context may not see are left out, and some are masked.
use pureq.Query.{
  undefined_column, Answer, done, refused, ◌>>=◌, one, Expression, column, literal, binary,
  function, no_args, arg, Column, named, computed, Columns, all_columns, listed,
}
use pureq.Query.Names.{includes, nonempty}
use pureq.Builder.{Redact, mask, hide, keep, ColumnPolicy, Table, Constants}
use pureq.Prelude.{
  Bool, true, false, not, ◌&&◌, ◌||◌, Option, none, some, List, [], ◌∷◌, ◌++◌, map, some_of, ◌==◌,
}
use pureq.Prelude.Text.{Text, codes, codes_key}
use pureq.Prelude.JsMap.{get}

abbrev pub has_scope : List Text → ColumnPolicy → Bool
has_scope user_scopes policy = elim policy.scope [
  | [] ↦ true
  | s ∷ ss ↦ some_of (includes user_scopes) (s ∷ ss)
]

abbrev pub is_shown : Option Redact → Bool
is_shown none = false
is_shown (some hide) = false
is_shown (some mask) = true
is_shown (some keep) = true

abbrev pub is_masked : Option ColumnPolicy → Bool
is_masked none = false
is_masked (some policy) = policy.pii && elim policy.redact [
  | none ↦ false
  | some mask ↦ true
  | some hide ↦ false
  | some keep ↦ false
]

-- whether a policy lets the scopes see the column
abbrev pub is_policy_met : List Text → Option ColumnPolicy → Bool
is_policy_met user_scopes none = true
is_policy_met user_scopes (some policy) = has_scope user_scopes policy || is_shown policy.redact

-- A column that the table does not have is allowed.
abbrev pub is_column_met : List Text → Option (Option ColumnPolicy) → Bool
is_column_met user_scopes none = true
is_column_met user_scopes (some policy) = is_policy_met user_scopes policy

-- whether an expression is a column of this table
abbrev pub is_own : Text → Option Text → Bool
is_own table_name none = true
is_own table_name (some t) = t == table_name

module _ {V : Type 0} (c : Constants V) where
  -- `SUBSTR(column, 1, 3) || '***'`
  abbrev pub masked_column : Text → Text → Expression V
  masked_column table_name col_name =
      binary
        (function (codes "SUBSTR") (
          arg (column col_name (some table_name))
            (arg (literal (one c.number_one)) (arg (literal (one c.number_three)) no_args))))
        (codes "||") (literal (one c.stars))

  module _ (table : Table V) (table_name : Text) (user_scopes : List Text) where
    abbrev pub is_column_allowed : Text → Bool
    is_column_allowed col_name = is_column_met user_scopes (get col_name table.columns)

    -- The options of a column that the table does not have cannot be read.
    abbrev pub redacted : Text → Option (Option ColumnPolicy) → Answer (Column V)
    redacted col_name none = refused undefined_column
    redacted col_name (some policy) = done (elim (is_masked policy) [
      | true ↦ computed (masked_column table_name col_name)
      | false ↦ named col_name
    ])

    abbrev pub get_redacted_expression : Text → Answer (Column V)
    get_redacted_expression col_name = redacted col_name (get col_name table.columns)

    abbrev pub kept_if : Bool → Column V → Answer (List (Column V))
    kept_if true req = done (req ∷ [])
    kept_if false req = done []

    -- A request for a column: it is left out, or what stands in its place.
    unfoldable pub secure_name : Bool → Text → Answer (List (Column V))
    secure_name true col_name = do req ← get_redacted_expression col_name; done (req ∷ [])
    secure_name false col_name = done []

    unfoldable pub secure_column : Column V → Answer (List (Column V))
    unfolding secure_name
    secure_column (named req) = secure_name (is_column_allowed req) req
    secure_column (computed (column name t)) =
        kept_if (not (is_own table_name (nonempty t)) || is_column_allowed name)
          (computed (column name t))
    secure_column (computed e) = done (computed e ∷ [])

    unfoldable pub secure_list : List (Column V) → Answer (List (Column V))
    unfolding secure_column
    secure_list [] = done []
    secure_list (req ∷ reqs) = do
      first ← secure_column req
      others ← secure_list reqs
      done (first ++ others)

    -- `"*"` stands for the columns of the table, by name.
    unfoldable pub apply_column_security : Columns V → Answer (Columns V)
    unfolding secure_list
    apply_column_security all_columns = do
      allowed ← secure_list (map (λ e. named e.0) table.columns)
      done (listed allowed)
    apply_column_security (listed reqs) = do requested ← secure_list reqs; done (listed requested)
