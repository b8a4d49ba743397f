-- ===== src/Builder/Aliases.antt =====
-- The tables that a builder has joined, by their aliases.
use pureq.Query.{Language, Expression, Join}
use pureq.Query.Done.{IsDone, >>=-IsDone, Any}
use pureq.Query.Names.{includes, validate_identifier, validate_expression}
use pureq.Builder.{Constants, Table, SelectBuilder}
use pureq.Builder.Steps.{join}
use pureq.Builder.Pushdown.{alias_of_table, table_names}
use pureq.Prelude.{
  ◌≡◌, refl, sym, subst, none, some, true, false, ◌==◌, All, All-append, All-map, All-zip, List, [],
  ◌∷◌, ◌++◌, is_some, arith,
}
use pureq.Prelude.Text.{Text, codes_key}
use pureq.Prelude.JsMap.{get, set_absent}

module _ {V : Type 0} where
  -- Every join's table is found under an alias.
  abbrev pub HasAliases : List (Text × Table V) → List (Join V) → Type 0
  HasAliases joined_tables [] = Unit
  HasAliases joined_tables (j ∷ js) =
      (is_some (alias_of_table j.table joined_tables) ≡ true) × HasAliases joined_tables js

  alias_of_table-append :
      (name : Text) (es : List (Text × Table V)) (e : Text × Table V)
      → is_some (alias_of_table name es) ≡ true
      → is_some (alias_of_table name (es ++ e ∷ [])) ≡ true
  unfolding alias_of_table
  alias_of_table-append name [] e h = absurd (cc)
  alias_of_table-append name ((alias, table) ∷ es) e h =
      ground (arith, alias_of_table-append name es e)

  alias_of_table-last :
      (es : List (Text × Table V)) (alias : Text) (table : Table V)
      → is_some (alias_of_table table.name (es ++ (alias, table) ∷ [])) ≡ true
  unfolding alias_of_table
  alias_of_table-last [] alias table = ground (arith, codes_key.same_iff table.name table.name)
  alias_of_table-last ((a, t) ∷ es) alias table = ground (arith, alias_of_table-last es alias table)

  append-HasAliases :
      (es : List (Text × Table V)) (alias : Text) (table : Table V) (js : List (Join V))
      (j : Join V)
      → HasAliases es js
      → j.table ≡ table.name
      → HasAliases (es ++ (alias, table) ∷ []) (js ++ j ∷ [])
  append-HasAliases es alias table [] j h e = (
    subst (λ name. is_some (alias_of_table name (es ++ (alias, table) ∷ [])) ≡ true) (sym e)
        (alias_of_table-last es alias table),
    tt,
  )
  append-HasAliases es alias table (i ∷ js) j h e = (
    alias_of_table-append i.table es (alias, table) h.0,
    append-HasAliases es alias table js j h.1 e,
  )

module _ {V : Type 0} where
  -- Of the joined tables no two have one name.
  abbrev pub HaveDistinctNames : List (Text × Table V) → Type 0
  HaveDistinctNames [] = Unit
  HaveDistinctNames (e ∷ es) = All (λ o. (e.1.name == o.1.name) ≡ false) es × HaveDistinctNames es

  -- Every join's table is found, no two of the tables have one name, and each is that of a join.
  abbrev pub IsWellJoined : {N : Type 0} → SelectBuilder V N → Type 0
  IsWellJoined b =
      HasAliases b.joined_tables b.statement.joins
      × HaveDistinctNames b.joined_tables
      × All (λ e. includes (table_names b.statement.joins) e.1.name ≡ true) b.joined_tables

  alias_of_table-other :
      (e : Text × Table V) (es : List (Text × Table V)) (o : Text × Table V)
      → (e.1.name == o.1.name) ≡ false
      → alias_of_table o.1.name es ≡ some o
      → alias_of_table o.1.name (e ∷ es) ≡ some o
  unfolding alias_of_table
  alias_of_table-other (alias, table) es o d h = rw d h

  -- Then the alias that is found for a table is its own.
  pub alias_of_table-own :
      (es : List (Text × Table V))
      → HaveDistinctNames es
      → All (λ e. alias_of_table e.1.name es ≡ some e) es
  unfolding alias_of_table
  alias_of_table-own [] d = tt
  alias_of_table-own ((alias, table) ∷ es) d = (
    ground (arith, codes_key.same_iff table.name table.name),
    All-zip (λ o p q. alias_of_table-other (alias, table) es o p q) es d.0
        (alias_of_table-own es d.1),
  )

  HaveDistinctNames-append :
      (es : List (Text × Table V)) (e : Text × Table V)
      → HaveDistinctNames es
      → All (λ o. (o.1.name == e.1.name) ≡ false) es
      → HaveDistinctNames (es ++ e ∷ [])
  HaveDistinctNames-append [] e d h = (tt, tt)
  HaveDistinctNames-append (x ∷ es) e d h =
      (All-append _ es (e ∷ []) d.0 (h.0, tt), HaveDistinctNames-append es e d.1 h.1)

  includes-append :
      (js : List (Join V)) (j : Join V) (name : Text)
      → includes (table_names js) name ≡ true
      → includes (table_names (js ++ j ∷ [])) name ≡ true
  includes-append [] j name h = absurd (cc)
  includes-append (i ∷ js) j name h = ground (arith, includes-append js j name)

  includes-last :
      (js : List (Join V)) (j : Join V) → includes (table_names (js ++ j ∷ [])) j.table ≡ true
  includes-last [] j = ground (arith, codes_key.same_iff j.table j.table)
  includes-last (i ∷ js) j = ground (arith, includes-last js j)

  -- The builder with one more join.
  abbrev pub joined :
      {N : Type 0} → Text → Text → Table V → Expression V → SelectBuilder V N → SelectBuilder V N
  joined kind alias table on b = record b {
    statement = record (b.statement) {
      joins = b.statement.joins ++ record { kind = kind; table = table.name; on = on } ∷ [];
    };
    joined_tables = b.joined_tables ++ (alias, table) ∷ [];
  }

  joined-IsWellJoined :
      {N : Type 0} (kind alias : Text) (table : Table V) (on : Expression V) (b : SelectBuilder V N)
      → All (λ o. (o.1.name == table.name) ≡ false) b.joined_tables
      → IsWellJoined b
      → IsWellJoined (joined kind alias table on b)
  joined-IsWellJoined kind alias table on b other h = (
    append-HasAliases b.joined_tables alias table b.statement.joins _ h.0 refl,
    HaveDistinctNames-append b.joined_tables (alias, table) h.1 other,
    All-append _ b.joined_tables ((alias, table) ∷ [])
        (All-map (λ e k. includes-append b.statement.joins _ e.1.name k) b.joined_tables h.2)
        (includes-last b.statement.joins _, tt),
  )

module _ (l : Language) {V : Type 0} (c : Constants V) where
  -- A join of a table that is not joined yet, under an alias that is new and valid and with a
  -- condition that is valid, adds the join and the table under its alias to the builder and leaves
  -- the rest as it is; when every table that was joined stood under one alias before, so it does after.
  pub join-IsWellJoined :
      (kind alias : Text) (table : Table V) (on : Expression V) (b : SelectBuilder V l.Number)
      → IsDone Any (validate_identifier l alias)
      → IsDone Any (validate_expression l c.is_circular on)
      → get alias b.joined_tables ≡ none
      → All (λ o. (o.1.name == table.name) ≡ false) b.joined_tables
      → IsWellJoined b
      → IsDone
          (λ r. (r ≡ joined kind alias table on b) × IsWellJoined r)
          (join l c kind alias table on b)
  unfolding join
  join-IsWellJoined kind alias table on b valid valid_on fresh other h =
      >>=-IsDone Any _ (validate_identifier l alias) _ valid λ u i.
        >>=-IsDone Any _ (validate_expression l c.is_circular on) _ valid_on λ u i.
          rw (set_absent alias table b.joined_tables fresh)
            (refl, joined-IsWellJoined kind alias table on b other h)
