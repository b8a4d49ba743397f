-- ===== src/Builder/Joined.antt =====
-- The row condition and the joins of the statement that a select query runs.
use pureq.Query.{Expression, SelectStatement}
use pureq.Builder.{Table, QueryContext, SelectBuilder}
use pureq.Builder.Pushdown.{filter_of}
use pureq.Builder.Rows.{admits, on_of}
use pureq.Prelude.{◌≡◌, Bool, ◌&&◌, All}

module _ {V N : Type 0} (truth : Expression V → Bool) where
  abbrev pub AreFiltered :
      QueryContext V → Table V → SelectBuilder V N → SelectStatement V N → Type 0
  AreFiltered context table b s =
      (admits truth s.where_clause ≡ (
        admits truth b.statement.where_clause && admits truth (filter_of table table.name context)))
      × All
          (λ e. admits truth (on_of e.1.name s.joins) ≡ (
            admits truth (on_of e.1.name b.statement.joins)
            && admits truth (filter_of e.1 e.0 context)))
          b.joined_tables
