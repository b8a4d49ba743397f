-- ===== src/Builder/Visible.antt =====
-- What applyPolicyPushdown lets through of the columns that a query of several tables asks for.
use pureq.Query.{◌>>=◌, Expression, Column, named, computed, Columns, all_columns, listed}
use pureq.Query.Done.{IsDone, >>=-IsDone, IsDone-imp}
use pureq.Builder.{ColumnPolicy, Table, QueryContext, Constants}
use pureq.Builder.Security.{masked_column}
use pureq.Builder.Pushdown.{alias_of_table}
use pureq.Builder.Passes.{column_base, column_join, column_joins}
use pureq.Builder.Hidden.{IsKnown, IsVisible, OfListed, OfListed-imp, apply_column_security-IsDone}
use pureq.Prelude.{◌≡◌, true, Option, none, some, List, [], ◌∷◌, map, All, All-map, is_some, arith}
use pureq.Prelude.Text.{Text, codes_key}
use pureq.Prelude.JsMap.{get}

later_IsKnown :
    (e : Text × Option ColumnPolicy) (m : List (Text × Option ColumnPolicy)) (name : Text)
    → is_some (get name m) ≡ true
    → is_some (get name (e ∷ m)) ≡ true
unfolding get
later_IsKnown (j, policy) m name h = ground (arith)

-- The names of a table's columns are known.
pub columns-IsKnown :
    (m : List (Text × Option ColumnPolicy)) → All (λ e. is_some (get e.0 m) ≡ true) m
unfolding get
columns-IsKnown [] = tt
columns-IsKnown ((j, policy) ∷ m) = (
  ground (arith, codes_key.same_iff j j),
  All-map (λ e h. later_IsKnown (j, policy) m e.0 h) m (columns-IsKnown m),
)

pub All-named :
    {V : Type 0} (P : Column V → Type 0) (m : List (Text × Option ColumnPolicy))
    → All (λ e. P (named e.0)) m
    → All P (map (λ e. named e.0) m)
All-named P [] h = tt
All-named P (e ∷ m) h = (h.0, All-named P m h.1)

-- The tables that a query joins
module _ {V : Type 0} (joined_tables : List (Text × Table V)) where
  abbrev pub IsKnownEntry : Option (Text × Table V) → Column V → Type 0
  IsKnownEntry none r = Unit
  IsKnownEntry (some (alias, table)) r = IsKnown table r

  abbrev pub IsVisibleEntry : List Text → Option (Text × Table V) → Column V → Type 0
  IsVisibleEntry user_scopes none r = Unit
  IsVisibleEntry user_scopes (some (alias, table)) r = IsVisible table alias user_scopes r

  abbrev pub IsKnownIn : List Text → Column V → Type 0
  IsKnownIn names r = All (λ name. IsKnownEntry (alias_of_table name joined_tables) r) names

  abbrev pub IsVisibleIn : List Text → List Text → Column V → Type 0
  IsVisibleIn user_scopes names r =
      All (λ name. IsVisibleEntry user_scopes (alias_of_table name joined_tables) r) names

  computed-IsKnownEntry :
      (entry : Option (Text × Table V)) (e : Expression V) → IsKnownEntry entry (computed e)
  computed-IsKnownEntry none e = tt
  computed-IsKnownEntry (some (alias, table)) e = tt

  pub computed-IsKnownIn : (names : List Text) (e : Expression V) → IsKnownIn names (computed e)
  computed-IsKnownIn [] e = tt
  computed-IsKnownIn (name ∷ names) e =
      (computed-IsKnownEntry (alias_of_table name joined_tables) e, computed-IsKnownIn names e)

  masked-IsVisibleEntry :
      (c : Constants V) (user_scopes : List Text) (entry : Option (Text × Table V))
      (table_name name : Text)
      → IsVisibleEntry user_scopes entry (computed (masked_column c table_name name))
  masked-IsVisibleEntry c user_scopes none table_name name = tt
  masked-IsVisibleEntry c user_scopes (some (alias, table)) table_name name = tt

  module _ (c : Constants V) (context : QueryContext V) where
    -- What a pass over one more table leaves.
    abbrev After : (Column V → Type 0) → Option (Text × Table V) → Column V → Type 0
    After P entry r = P r × IsVisibleEntry context.scopes entry r

    column_join-IsDone :
        (P : Column V → Type 0) (entry : Option (Text × Table V)) (rs : List (Column V))
        → ((t name : Text) → P (computed (masked_column c t name)))
        → All (IsKnownEntry entry) rs
        → All P rs
        → IsDone (OfListed (After P entry)) (column_join c context entry (listed rs))
    column_join-IsDone P none rs masks h p = All-map (λ r q. (q, tt)) rs p
    column_join-IsDone P (some (alias, table)) rs masks h p =
        apply_column_security-IsDone c table alias context.scopes P (masks alias) rs h p

    column_joins-IsDone :
        (P : Column V → Type 0) (names : List Text) (columns : Columns V)
        → ((t name : Text) → P (computed (masked_column c t name)))
        → OfListed (λ r. P r × IsKnownIn names r) columns
        → IsDone
            (OfListed (λ r. P r × IsVisibleIn context.scopes names r))
            (column_joins c context joined_tables names columns)
    unfolding column_joins
    column_joins-IsDone P names all_columns masks h = absurd h
    column_joins-IsDone P [] (listed rs) masks h = h
    column_joins-IsDone P (name ∷ names) (listed rs) masks h =
        let entry = alias_of_table name joined_tables in
        let known : Column V → Type 0 = λ r. P r × IsKnownIn names r in
        let seen : Column V → Type 0 =
          λ r. (P r × IsVisibleEntry context.scopes entry r) × IsKnownIn names r in
        >>=-IsDone (OfListed (After known entry)) _ (column_join c context entry (listed rs)) _
          (column_join-IsDone known entry rs (λ t n. (masks t n, computed-IsKnownIn names _))
            (All-map (λ r q. q.1.0) rs h) (All-map (λ r q. (q.0, q.1.1)) rs h))
          λ columns k.
            IsDone-imp _ _ (column_joins c context joined_tables names columns)
              (λ more q. OfListed-imp _ _ (λ r v. (v.0.0, (v.0.1, v.1))) more q)
              (column_joins-IsDone (After P entry) names columns
                (λ t n. (masks t n, masked-IsVisibleEntry c context.scopes entry t n))
                (OfListed-imp (After known entry) seen (λ r v. ((v.0.0, v.1), v.0.1)) columns k))

    -- The columns after the passes over all tables.
    pub tables-IsDone :
        (table : Table V) (names : List Text) (rs : List (Column V))
        → All (λ r. IsKnown table r × IsKnownIn names r) rs
        → IsDone
            (OfListed (λ r.
              IsVisible table table.name context.scopes r × IsVisibleIn context.scopes names r))
            (column_base c context (some table) (listed rs)
              >>= column_joins c context joined_tables names)
    tables-IsDone table names rs h =
        let own : Column V → Type 0 = IsVisible table table.name context.scopes in
        >>=-IsDone (OfListed (λ r. IsKnownIn names r × own r)) _
          (column_base c context (some table) (listed rs)) _
          (apply_column_security-IsDone c table table.name context.scopes (IsKnownIn names)
            (λ n. computed-IsKnownIn names _) rs (All-map (λ r q. q.0) rs h)
            (All-map (λ r q. q.1) rs h))
          λ columns k.
            column_joins-IsDone own names columns (λ t n. tt)
              (OfListed-imp _ _ (λ r q. (q.1, q.0)) columns k)
