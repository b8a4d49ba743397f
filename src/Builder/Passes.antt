-- ===== src/Builder/Passes.antt =====
-- The two passes of applyPolicyPushdown, applyRLS and applyColumnSecurity, do not read what the other
-- changes: one changes the joins and the row condition, the other the columns.
use pureq.Query.{Answer, done, ◌>>=◌, Columns, SelectStatement}
use pureq.Query.Done.{IsDone, >>=-IsDone, bind-IsDone, IsDone-imp}
use pureq.Builder.{Table, QueryContext, Constants, SelectBuilder}
use pureq.Builder.Security.{apply_column_security}
use pureq.Builder.Pushdown.{
  filter_of, filter_join, add_to_join, apply_filter, apply_rls, alias_of_table, secure_table,
  secure_base, secure_join, secure_joins, table_names, push_down,
}
use pureq.Prelude.{◌≡◌, refl, sym, ap, ◌∙◌, subst, Option, none, some, List, [], ◌∷◌, or_else}
use pureq.Prelude.Text.{Text, codes_key}

module _ {V N : Type 0} where
  abbrev pub with_columns : Columns V → SelectStatement V N → SelectStatement V N
  with_columns columns s = record s { columns = columns }

  pub apply_rls-with_columns :
      (table : Table V) (context : QueryContext V) (alias : Option Text) (columns : Columns V)
      (s : SelectStatement V N)
      → apply_rls table context alias (with_columns columns s)
        ≡ with_columns columns (apply_rls table context alias s)
  unfolding apply_rls apply_filter
  apply_rls-with_columns table context alias columns s =
      by_filter (filter_of table (or_else alias table.name) context) alias
    where
      by_join :
          (filter : _) (joins : _)
          → filter_join filter joins (with_columns columns s)
            ≡ with_columns columns (filter_join filter joins s)
      by_join filter none = refl
      by_join filter (some joins) = refl

      by_filter :
          (filter : _) (alias : Option Text)
          → apply_filter filter alias table.name (with_columns columns s)
            ≡ with_columns columns (apply_filter filter alias table.name s)
      by_filter none alias = refl
      by_filter (some filter) none = refl
      by_filter (some filter) (some alias) = by_join filter (add_to_join table.name filter s.joins)

module _ {V N : Type 0} (context : QueryContext V) where
  abbrev pub rls_base : Option (Table V) → SelectStatement V N → SelectStatement V N
  rls_base none s = s
  rls_base (some table) s = apply_rls table context none s

  abbrev pub rls_join : Option (Text × Table V) → SelectStatement V N → SelectStatement V N
  rls_join none s = s
  rls_join (some (alias, table)) s = apply_rls table context (some alias) s

  unfoldable pub rls_joins :
      List (Text × Table V) → List Text → SelectStatement V N → SelectStatement V N
  rls_joins joined_tables [] s = s
  rls_joins joined_tables (name ∷ names) s =
      rls_joins joined_tables names (rls_join (alias_of_table name joined_tables) s)

  rls_join-with_columns :
      (entry : Option (Text × Table V)) (columns : Columns V) (s : SelectStatement V N)
      → rls_join entry (with_columns columns s) ≡ with_columns columns (rls_join entry s)
  rls_join-with_columns none columns s = refl
  rls_join-with_columns (some (alias, table)) columns s =
      apply_rls-with_columns table context (some alias) columns s

  rls_joins-with_columns :
      (joined_tables : List (Text × Table V)) (names : List Text) (columns : Columns V)
      (s : SelectStatement V N)
      → rls_joins joined_tables names (with_columns columns s)
        ≡ with_columns columns (rls_joins joined_tables names s)
  unfolding rls_joins
  rls_joins-with_columns joined_tables [] columns s = refl
  rls_joins-with_columns joined_tables (name ∷ names) columns s =
      ap (rls_joins joined_tables names)
        (rls_join-with_columns (alias_of_table name joined_tables) columns s)
      ∙ rls_joins-with_columns joined_tables names columns _

module _ {V : Type 0} (c : Constants V) (context : QueryContext V) where
  abbrev pub column_base : Option (Table V) → Columns V → Answer (Columns V)
  column_base none columns = done columns
  column_base (some table) columns = apply_column_security c table table.name context.scopes columns

  abbrev pub column_join : Option (Text × Table V) → Columns V → Answer (Columns V)
  column_join none columns = done columns
  column_join (some (alias, table)) columns =
      apply_column_security c table alias context.scopes columns

  unfoldable pub column_joins : List (Text × Table V) → List Text → Columns V → Answer (Columns V)
  column_joins joined_tables [] columns = done columns
  column_joins joined_tables (name ∷ names) columns = do
    first ← column_join (alias_of_table name joined_tables) columns
    column_joins joined_tables names first

module _ {V N : Type 0} (c : Constants V) (context : QueryContext V) where
  module _ (Q : SelectStatement V N → Type 0) where
    secure_table-IsDone :
        (table : Table V) (alias : Option Text) (s : SelectStatement V N)
        → IsDone
            (λ columns. Q (with_columns columns (apply_rls table context alias s)))
            (apply_column_security c table (or_else alias table.name) context.scopes s.columns)
        → IsDone Q (secure_table c context table alias s)
    unfolding secure_table
    secure_table-IsDone table alias s h =
        >>=-IsDone (λ columns. Q (with_columns columns (apply_rls table context alias s))) Q _ _
          (subst
            (λ columns.
              IsDone (λ columns. Q (with_columns columns (apply_rls table context alias s)))
                (apply_column_security c table (or_else alias table.name) context.scopes columns))
            (sym (ap (λ r. r.columns) (apply_rls-with_columns table context alias s.columns s))) h)
          λ columns h. h

    secure_base-IsDone :
        (table : Option (Table V)) (s : SelectStatement V N)
        → IsDone
            (λ columns. Q (with_columns columns (rls_base context table s)))
            (column_base c context table s.columns)
        → IsDone Q (secure_base c context table s)
    secure_base-IsDone none s h = h
    secure_base-IsDone (some table) s h = secure_table-IsDone table none s h

    secure_join-IsDone :
        (entry : Option (Text × Table V)) (s : SelectStatement V N)
        → IsDone
            (λ columns. Q (with_columns columns (rls_join context entry s)))
            (column_join c context entry s.columns)
        → IsDone Q (secure_join c context entry s)
    secure_join-IsDone none s h = h
    secure_join-IsDone (some (alias, table)) s h = secure_table-IsDone table (some alias) s h

    abbrev pub AfterJoins :
        List (Text × Table V) → List Text → SelectStatement V N → Columns V → Type 0
    AfterJoins joined_tables names s columns =
        Q (with_columns columns (rls_joins context joined_tables names s))

  secure_joins-IsDone :
      (Q : SelectStatement V N → Type 0) (joined_tables : List (Text × Table V)) (names : List Text)
      (s : SelectStatement V N)
      → IsDone
          (AfterJoins Q joined_tables names s)
          (column_joins c context joined_tables names s.columns)
      → IsDone Q (secure_joins c context joined_tables names s)
  unfolding secure_joins rls_joins column_joins
  secure_joins-IsDone Q joined_tables [] s h = h
  secure_joins-IsDone Q joined_tables (name ∷ names) s h =
      let entry = alias_of_table name joined_tables in
      >>=-IsDone (λ r. IsDone Q (secure_joins c context joined_tables names r)) Q _ _
        (secure_join-IsDone (λ r. IsDone Q (secure_joins c context joined_tables names r)) entry s
          (IsDone-imp _ _ (column_join c context entry s.columns)
            (λ columns k. secure_joins-IsDone Q joined_tables names _ (
              IsDone-imp (AfterJoins Q joined_tables (name ∷ names) s)
                (AfterJoins Q joined_tables names (with_columns columns (rls_join context entry s)))
                (column_joins c context joined_tables names columns)
                (λ more q.
                  subst (λ r. Q (with_columns more r))
                    (sym (
                      rls_joins-with_columns context joined_tables names columns
                        (rls_join context entry s)))
                    q)
                k))
            (bind-IsDone _ (column_join c context entry s.columns) _ h)))
        λ r k. k

  joins-rls_base :
      (table : Option (Table V)) (s : SelectStatement V N)
      → (rls_base context table s).joins ≡ s.joins
  unfolding apply_rls apply_filter
  joins-rls_base none s = refl
  joins-rls_base (some table) s =
      elim (filter_of table table.name context)
        as (λ f. (apply_filter f none table.name s).joins ≡ s.joins) [
          | none ↦ refl
          | some filter ↦ refl
        ]

  any_names :
      (Q : SelectStatement V N → Type 0) (b : SelectBuilder V N) (columns : Columns V)
      (names : List Text)
      → names ≡ table_names b.statement.joins
      → let s = rls_base context b.table_obj b.statement in
        IsDone
          (AfterJoins Q b.joined_tables (table_names b.statement.joins) s)
          (column_joins c context b.joined_tables (table_names b.statement.joins) columns)
        → IsDone Q (secure_joins c context b.joined_tables names (with_columns columns s))
  any_names Q b columns names e h =
      let s = rls_base context b.table_obj b.statement in
      subst (λ ns. IsDone Q (secure_joins c context b.joined_tables ns (with_columns columns s)))
        (sym e)
        (secure_joins-IsDone Q b.joined_tables (table_names b.statement.joins)
          (with_columns columns s)
          (IsDone-imp (AfterJoins Q b.joined_tables (table_names b.statement.joins) s)
            (AfterJoins Q b.joined_tables (table_names b.statement.joins) (with_columns columns s))
            _
            (λ more q.
              subst (λ r. Q (with_columns more r))
                (sym (
                  rls_joins-with_columns context b.joined_tables (table_names b.statement.joins)
                    columns s))
                q)
            h))

  -- The statement that runs, from what the two passes give.
  pub push_down-IsDone :
      (Q : SelectStatement V N → Type 0) (b : SelectBuilder V N)
      → let names = table_names b.statement.joins in
        IsDone (AfterJoins Q b.joined_tables names (rls_base context b.table_obj b.statement)) (
          column_base c context b.table_obj b.statement.columns
          >>= column_joins c context b.joined_tables names)
        → IsDone Q (push_down c context b)
  unfolding push_down
  push_down-IsDone Q b h =
      let joins_done : SelectStatement V N → Type 0 =
        λ s. IsDone Q (secure_joins c context b.joined_tables (table_names s.joins) s) in
      >>=-IsDone joins_done Q _ _
        (secure_base-IsDone joins_done b.table_obj b.statement (
          IsDone-imp _ _ (column_base c context b.table_obj b.statement.columns)
            (λ columns k.
              any_names Q b columns _ (ap table_names (joins-rls_base b.table_obj b.statement)) k)
            (bind-IsDone _ (column_base c context b.table_obj b.statement.columns) _ h)))
        λ r k. k
