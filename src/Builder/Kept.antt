-- ===== src/Builder/Kept.antt =====
-- Of the columns that a query asks for, those that its tables show stay.
use pureq.Query.{
  Answer, done, refused, out_of_fuel, ◌>>=◌, column, literal, binary, function, Column, named,
  computed, Columns, all_columns, listed,
}
use pureq.Query.Done.{IsDone}
use pureq.Builder.{ColumnPolicy, Table, QueryContext, Constants}
use pureq.Builder.Security.{
  is_masked, is_column_met, secure_name, secure_column, secure_list, apply_column_security,
}
use pureq.Builder.Pushdown.{alias_of_table}
use pureq.Builder.Passes.{column_base, column_join, column_joins}
use pureq.Builder.Hidden.{IsKnown, is_plain, IsVisible}
use pureq.Builder.Visible.{IsKnownEntry, IsVisibleEntry, IsKnownIn, IsVisibleIn}
use pureq.Prelude.{
  ◌≡◌, refl, ap, subst, ◌∙◌, ◌⊎◌, inl, inr, true, Option, none, some, List, [], ◌∷◌, ◌++◌, All,
  is_some, Bool-cases, arith,
}
use pureq.Prelude.Text.{Text, codes_key}
use pureq.Prelude.JsMap.{get}

module _ {V : Type 0} where
  abbrev pub IsIn : Column V → List (Column V) → Type 0
  IsIn r [] = ⊥
  IsIn r (x ∷ xs) = (x ≡ r) ⊎ IsIn r xs

  abbrev pub IsInColumns : Column V → Columns V → Type 0
  IsInColumns r all_columns = ⊥
  IsInColumns r (listed rs) = IsIn r rs

  pub IsIn-All :
      (P : Column V → Type 0) (r : Column V) (rs : List (Column V)) → All P rs → IsIn r rs → P r
  IsIn-All P r [] h i = absurd i
  IsIn-All P r (x ∷ xs) h (inl e) = subst P e h.0
  IsIn-All P r (x ∷ xs) h (inr i) = IsIn-All P r xs h.1 i

  IsIn-append : (r : Column V) (xs ys : List (Column V)) → IsIn r ys → IsIn r (xs ++ ys)
  IsIn-append r [] ys i = i
  IsIn-append r (x ∷ xs) ys i = inr (IsIn-append r xs ys i)

-- The value of a first step, from that of the whole.
bind-done :
    {A B : Type 0} (m : Answer A) (k : A → Answer B) (b : B)
    → (m >>= k) ≡ done b
    → (a : A) × (m ≡ done a) × (k a ≡ done b)
bind-done (done a) k b e = (a, refl, e)
bind-done (refused r) k b e = absurd (cc)
bind-done out_of_fuel k b e = absurd (cc)

pub both_of-IsDone :
    {A : Type 0} (P Q : A → Type 0) (m : Answer A)
    → IsDone P m
    → ((a : A) → m ≡ done a → Q a)
    → IsDone (λ a. P a × Q a) m
both_of-IsDone P Q (done a) h k = (h, k a refl)
both_of-IsDone P Q (refused r) h k = h
both_of-IsDone P Q out_of_fuel h k = h

module _ {V : Type 0} (c : Constants V) where
  module _ (table : Table V) (table_name : Text) (user_scopes : List Text) where
    secure_name-kept :
        (name : Text) (found : Option (Option ColumnPolicy))
        → get name table.columns ≡ found
        → is_some found ≡ true
        → is_plain user_scopes found ≡ true
        → secure_name c table table_name user_scopes (is_column_met user_scopes found) name
          ≡ done (named name ∷ [])
    unfolding secure_name
    secure_name-kept name none e h p = absurd (cc)
    secure_name-kept name (some policy) e h p =
        elim (Bool-cases (is_column_met user_scopes (some policy))) [
          | inr m ↦ absurd (ground (arith))
          | inl m ↦ elim (Bool-cases (is_masked policy)) [
            | inl k ↦ absurd (ground (arith))
            | inr k ↦ rw m (rw e (rw k refl))
          ]
        ]

    secure_column-kept :
        (r : Column V)
        → IsKnown table r
        → IsVisible table table_name user_scopes r
        → secure_column c table table_name user_scopes r ≡ done (r ∷ [])
    unfolding secure_column
    secure_column-kept (named name) h v = secure_name-kept name (get name table.columns) refl h v
    secure_column-kept (computed (column name t)) h v = rw v refl
    secure_column-kept (computed (literal value)) h v = refl
    secure_column-kept (computed (binary left op right)) h v = refl
    secure_column-kept (computed (function name args)) h v = refl

    module _ (r : Column V) (known : IsKnown table r)
        (visible : IsVisible table table_name user_scopes r) where
      secure_list-kept :
          (rs out : List (Column V))
          → IsIn r rs
          → secure_list c table table_name user_scopes rs ≡ done out
          → IsIn r out
      unfolding secure_list
      secure_list-kept [] out i e = absurd i
      secure_list-kept (x ∷ xs) out i e =
          let (first, p, e1) = bind-done (secure_column c table table_name user_scopes x) _ out e in
          let (others, q, e2) =
            bind-done (secure_list c table table_name user_scopes xs) _ out e1 in
          let whole : first ++ others ≡ out = cc in
          subst (IsIn r) whole (elim i [
            | inl same ↦
                let own : secure_column c table table_name user_scopes x ≡ done (r ∷ []) =
                  ap (secure_column c table table_name user_scopes) same
                  ∙ secure_column-kept r known visible in
                let alone : r ∷ [] ≡ first = cc in
                subst (λ f. IsIn r (f ++ others)) alone (inl refl)
            | inr later ↦ IsIn-append r first others (secure_list-kept xs others later q)
          ])

      pub apply_column_security-kept :
          (rs : List (Column V)) (columns : Columns V)
          → IsIn r rs
          → apply_column_security c table table_name user_scopes (listed rs) ≡ done columns
          → IsInColumns r columns
      unfolding apply_column_security
      apply_column_security-kept rs columns i e =
          let (out, p, e1) =
            bind-done (secure_list c table table_name user_scopes rs) _ columns e in
          let whole : listed out ≡ columns = cc in
          subst (IsInColumns r) whole (secure_list-kept rs out i p)

  module _ (context : QueryContext V) (joined_tables : List (Text × Table V)) (r : Column V) where
    column_join-kept :
        (entry : Option (Text × Table V)) (rs : List (Column V)) (columns : Columns V)
        → IsKnownEntry joined_tables entry r
        → IsVisibleEntry joined_tables context.scopes entry r
        → IsIn r rs
        → column_join c context entry (listed rs) ≡ done columns
        → IsInColumns r columns
    column_join-kept none rs columns h v i e =
        let same : listed rs ≡ columns = cc in subst (IsInColumns r) same i
    column_join-kept (some (alias, table)) rs columns h v i e =
        apply_column_security-kept table alias context.scopes r h v rs columns i e

    column_joins-kept :
        (names : List Text) (start columns : Columns V)
        → IsKnownIn joined_tables names r
        → IsVisibleIn joined_tables context.scopes names r
        → IsInColumns r start
        → column_joins c context joined_tables names start ≡ done columns
        → IsInColumns r columns
    unfolding column_joins
    column_joins-kept names all_columns columns h v i e = absurd i
    column_joins-kept [] (listed rs) columns h v i e =
        let same : listed rs ≡ columns = cc in subst (IsInColumns r) same i
    column_joins-kept (name ∷ names) (listed rs) columns h v i e =
        let (next, p, e1) =
          bind-done (column_join c context (alias_of_table name joined_tables) (listed rs)) _
            columns e in
        column_joins-kept names next columns h.1 v.1
          (column_join-kept (alias_of_table name joined_tables) rs next h.0 v.0 i p) e1

    pub tables-kept :
        (table : Table V) (names : List Text) (rs : List (Column V)) (columns : Columns V)
        → IsKnown table r
        → IsKnownIn joined_tables names r
        → IsVisible table table.name context.scopes r
        → IsVisibleIn joined_tables context.scopes names r
        → IsIn r rs
        → (column_base c context (some table) (listed rs)
            >>= column_joins c context joined_tables names)
          ≡ done columns
        → IsInColumns r columns
    tables-kept table names rs columns h hs v vs i e =
        let (next, p, e1) =
          bind-done (column_base c context (some table) (listed rs)) _ columns e in
        column_joins-kept names next columns hs vs
          (apply_column_security-kept table table.name context.scopes r h v rs next i p) e1
