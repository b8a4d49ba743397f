-- ===== src/Builder/Rows.antt =====
-- What the filters of applyRLS mean for the rows of a statement. `truth` tells, of one row, which
-- expressions are true; `AND` is true where both its sides are.
use pureq.Query.{Expression, Join, SelectStatement}
use pureq.Builder.{Table, QueryContext, conjunction, add_where_clause}
use pureq.Builder.Pushdown.{
  filter_of, add_filter, filter_join, add_to_join, apply_filter, apply_rls, alias_of_table,
  apply_where,
}
use pureq.Builder.Passes.{rls_join, rls_joins}
use pureq.Query.Names.{includes}
use pureq.Prelude.{
  ◌≡◌, refl, sym, ◌∙◌, ap, subst, Bool, true, false, not, ◌&&◌, ◌||◌, Option, none, some, List, [],
  ◌∷◌, ◌==◌, if◌then◌else◌, is_some, All, All-map, Bool-cases, inl, inr, arith,
}
use pureq.Prelude.Text.{Text, codes_key}

module _ {V : Type 0} where
  abbrev pub IsAnd : (Expression V → Bool) → Type 0
  IsAnd truth =
      (left right : Expression V) → truth (conjunction left right) ≡ (truth left && truth right)

  -- An absent condition is true of every row.
  abbrev pub admits : (Expression V → Bool) → Option (Expression V) → Bool
  admits truth none = true
  admits truth (some e) = truth e

  -- The condition of the first join with a table.
  unfoldable pub on_of : Text → List (Join V) → Option (Expression V)
  on_of name [] = none
  on_of name (j ∷ js) = if j.table == name then some j.on else on_of name js

  -- The filter of a table of which there may be none.
  abbrev pub entry_filter : QueryContext V → Option (Text × Table V) → Option (Expression V)
  entry_filter context none = none
  entry_filter context (some (alias, table)) = filter_of table alias context

abbrev pub AllOf : {A : Type 0} → (A → Type 0) → Option A → Type 0
AllOf P none = Unit
AllOf P (some a) = P a

alias_of_table-name :
    {V : Type 0} (name : Text) (es : List (Text × Table V))
    → AllOf (λ e. (e.1.name == name) ≡ true) (alias_of_table name es)
unfolding alias_of_table
alias_of_table-name name [] = tt
alias_of_table-name name ((alias, table) ∷ es) = elim (Bool-cases (table.name == name)) [
  | inl p ↦ rw p p
  | inr p ↦ rw p (alias_of_table-name name es)
]

-- The filter that the joins with a table get.
abbrev pub join_filter :
    {V : Type 0} → QueryContext V → List (Text × Table V) → Text → Option (Expression V)
join_filter context joined_tables name = entry_filter context (alias_of_table name joined_tables)

guard_twice :
    (n i f g x y z : Bool)
    → y ≡ (x && (not n || f))
    → z ≡ (y && (not i || g))
    → (n ≡ true → f ≡ g)
    → z ≡ (x && (not (n || i) || g))
guard_twice n i f g x y z e d h = ground (arith)

module _ {V : Type 0} (truth : Expression V → Bool) (and : IsAnd truth) where
  admits-add_where_clause :
      (where_clause : Option (Expression V)) (filter : Expression V)
      → admits truth (add_where_clause where_clause filter)
        ≡ (admits truth where_clause && truth filter)
  admits-add_where_clause none filter = refl
  admits-add_where_clause (some e) filter = and e filter

  pub admits-add_filter :
      (where_clause filter : Option (Expression V))
      → admits truth (add_filter where_clause filter)
        ≡ (admits truth where_clause && admits truth filter)
  admits-add_filter where_clause none = grind arith
  admits-add_filter where_clause (some filter) = admits-add_where_clause where_clause filter

  -- The rows of an update or a delete that has a context are those that its condition admits and that
  -- the table's filter lets through.
  pub apply_where_rows :
      (table : Table V) (context : QueryContext V) (where_clause : Option (Expression V))
      → admits truth (apply_where table (some context) where_clause)
        ≡ (admits truth where_clause && admits truth (filter_of table table.name context))
  apply_where_rows table context where_clause =
      admits-add_filter where_clause (filter_of table table.name context)

  -- A join with the filter in it.
  abbrev IsAdded : Text → Expression V → List (Join V) → Option (List (Join V)) → Type 0
  IsAdded name filter js none = ⊥
  IsAdded name filter js (some js') =
      (m : Text)
      → (is_some (on_of m js') ≡ is_some (on_of m js))
        × (admits truth (on_of m js')
            ≡ (admits truth (on_of m js) && (not (name == m) || truth filter)))

  add_to_join-IsAdded :
      (name : Text) (filter : Expression V) (js : List (Join V))
      → is_some (on_of name js) ≡ true
      → IsAdded name filter js (add_to_join name filter js)
  unfolding add_to_join on_of
  add_to_join-IsAdded name filter [] h = absurd (cc)
  add_to_join-IsAdded name filter (j ∷ js) h = elim (Bool-cases (j.table == name)) [
    | inl p ↦
        rw (p, IsAdded)
          λ m. ground (
            arith,
            and j.on filter,
            codes_key.same_iff j.table name,
            codes_key.same_iff j.table m,
            codes_key.same_iff name m,
          )
    | inr p ↦
        rw (p, IsAdded)
          (later p (add_to_join name filter js)
            (add_to_join-IsAdded name filter js (sym (rw p refl) ∙ h)))
  ]
    where
      later :
          (j.table == name) ≡ false
          → (added : Option (List (Join V))) → IsAdded name filter js added
          → IsAdded name filter (j ∷ js) (elim added [ none ↦ none | some js' ↦ some (j ∷ js') ])
      later p none k = k
      later p (some js') k = λ m. ground (
        arith,
        p,
        k m,
        codes_key.same_iff j.table name,
        codes_key.same_iff j.table m,
        codes_key.same_iff name m,
      )

  -- What a step does to the row condition and to the joins' conditions.
  module _ {N : Type 0} where
    abbrev pub IsGuarded : (Text → Bool) → SelectStatement V N → SelectStatement V N → Type 0
    IsGuarded extra s r =
        (r.where_clause ≡ s.where_clause)
        × ((m : Text)
            → (is_some (on_of m r.joins) ≡ is_some (on_of m s.joins))
              × (admits truth (on_of m r.joins) ≡ (admits truth (on_of m s.joins) && extra m)))

    rls_join-IsGuarded :
        (context : QueryContext V) (name : Text) (entry : Option (Text × Table V))
        (s : SelectStatement V N)
        → AllOf (λ e. (e.1.name == name) ≡ true) entry
        → is_some (on_of name s.joins) ≡ true
        → IsGuarded
            (λ m. not (name == m) || admits truth (entry_filter context entry))
            s
            (rls_join context entry s)
    unfolding apply_rls apply_filter
    rls_join-IsGuarded context name none s t h = (refl, λ m. (refl, grind arith))
    rls_join-IsGuarded context name (some (alias, table)) s t h =
        let same : table.name ≡ name = (codes_key.same_iff table.name name).0 t in
        subst
          (λ n.
            IsGuarded (λ m. not (n == m) || admits truth (filter_of table alias context)) s
              (rls_join context (some (alias, table)) s))
          same
          (by_filter (filter_of table alias context)
            (subst (λ n. is_some (on_of n s.joins) ≡ true) (sym same) h))
      where
        by_join :
            (filter : Expression V) (added : Option (List (Join V)))
            → IsAdded table.name filter s.joins added
            → IsGuarded (λ m. not (table.name == m) || truth filter) s (filter_join filter added s)
        by_join filter none k = absurd k
        by_join filter (some js) k = (refl, k)

        by_filter :
            (filter : Option (Expression V))
            → is_some (on_of table.name s.joins) ≡ true
            → IsGuarded
                (λ m. not (table.name == m) || admits truth filter)
                s
                (apply_filter filter (some alias) table.name s)
        by_filter none h = (refl, λ m. (refl, grind arith))
        by_filter (some filter) h =
            by_join filter (add_to_join table.name filter s.joins)
              (add_to_join-IsAdded table.name filter s.joins h)

    pub rls_joins-IsGuarded :
        (context : QueryContext V) (joined_tables : List (Text × Table V)) (names : List Text)
        (s : SelectStatement V N)
        → All (λ name. is_some (on_of name s.joins) ≡ true) names
        → IsGuarded
            (λ m. not (includes names m) || admits truth (join_filter context joined_tables m))
            s
            (rls_joins context joined_tables names s)
    unfolding rls_joins
    rls_joins-IsGuarded context joined_tables [] s h = (refl, λ m. (refl, grind arith))
    rls_joins-IsGuarded context joined_tables (name ∷ names) s h =
        let r = rls_join context (alias_of_table name joined_tables) s in
        let g =
          rls_join-IsGuarded context name (alias_of_table name joined_tables) s
            (alias_of_table-name name joined_tables) h.0 in
        let more =
          rls_joins-IsGuarded context joined_tables names r
            (All-map (λ n k. (g.1 n).0 ∙ k) names h.1) in
        (
          more.0 ∙ g.0,
          λ m. (
            (more.1 m).0 ∙ (g.1 m).0,
            guard_twice (name == m) (includes names m) _ _ _ _ _ (g.1 m).1 (more.1 m).1 (λ e.
                ap (λ n. admits truth (join_filter context joined_tables n))
                  ((codes_key.same_iff name m).0 e)),
          ),
        )
