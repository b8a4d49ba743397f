-- ===== src/Builder/Hidden.antt =====
-- What applyPolicyPushdown lets through of the columns that a query asks for.
use pureq.Query.{
  column, literal, binary, function, Column, named, computed, Columns, all_columns, listed,
}
use pureq.Query.Done.{IsDone, >>=-IsDone}
use pureq.Query.Names.{nonempty}
use pureq.Builder.{ColumnPolicy, Table, Constants}
use pureq.Builder.Security.{
  is_masked, is_column_met, is_own, masked_column, redacted, secure_name, secure_column,
  secure_list, apply_column_security,
}
use pureq.Prelude.{
  ◌≡◌, refl, Bool, true, not, ◌&&◌, ◌||◌, Option, none, some, List, [], ◌∷◌, All, All-append,
  All-map, is_some, Bool-cases, inl, inr,
}
use pureq.Prelude.Text.{Text, codes_key}
use pureq.Prelude.JsMap.{get}

-- whether the scopes may see a column, and as it is
abbrev pub is_plain : List Text → Option (Option ColumnPolicy) → Bool
is_plain user_scopes none = true
is_plain user_scopes (some policy) =
    is_column_met user_scopes (some policy) && not (is_masked policy)

module _ {V : Type 0} where
  -- A name is that of a column of the table.
  abbrev pub IsKnown : Table V → Column V → Type 0
  IsKnown table (named name) = is_some (get name table.columns) ≡ true
  IsKnown table (computed e) = Unit

  -- A name is that of a column that the scopes may see and that is not masked; an expression that is
  -- a column of the table is one that they may see.
  abbrev pub IsVisible : Table V → Text → List Text → Column V → Type 0
  IsVisible table table_name user_scopes (named name) =
      is_plain user_scopes (get name table.columns) ≡ true
  IsVisible table table_name user_scopes (computed (column name t)) =
      (not (is_own table_name (nonempty t)) || is_column_met user_scopes (get name table.columns))
      ≡ true
  IsVisible table table_name user_scopes (computed (literal value)) = Unit
  IsVisible table table_name user_scopes (computed (binary left op right)) = Unit
  IsVisible table table_name user_scopes (computed (function name args)) = Unit

  abbrev pub OfListed : (Column V → Type 0) → Columns V → Type 0
  OfListed P all_columns = ⊥
  OfListed P (listed reqs) = All P reqs

  pub OfListed-imp :
      (P Q : Column V → Type 0) (f : (r : Column V) → P r → Q r) (columns : Columns V)
      → OfListed P columns
      → OfListed Q columns
  OfListed-imp P Q f all_columns h = h
  OfListed-imp P Q f (listed reqs) h = All-map f reqs h

module _ {V : Type 0} (c : Constants V) (table : Table V) (table_name : Text)
    (user_scopes : List Text) where
  module _ (P : Column V → Type 0)
      (masks : (name : Text) → P (computed (masked_column c table_name name))) where
    abbrev Kept : Column V → Type 0
    Kept r = P r × IsVisible table table_name user_scopes r

    redacted-Kept :
        (name : Text) (policy : Option ColumnPolicy)
        → get name table.columns ≡ some policy
        → P (named name)
        → is_column_met user_scopes (some policy) ≡ true
        → IsDone Kept (redacted c table table_name user_scopes name (some policy))
    redacted-Kept name policy e p m = elim (Bool-cases (is_masked policy)) [
      | inl k ↦ rw k (masks name, tt)
      | inr k ↦ rw k (p, rw e (rw m (rw k refl)))
    ]

    secure_name-IsDone :
        (name : Text) (found : Option (Option ColumnPolicy))
        → get name table.columns ≡ found
        → is_some found ≡ true
        → P (named name)
        → IsDone
            (All Kept)
            (secure_name c table table_name user_scopes (is_column_met user_scopes found) name)
    unfolding secure_name
    secure_name-IsDone name none e h p = absurd (cc)
    secure_name-IsDone name (some policy) e h p =
        elim (Bool-cases (is_column_met user_scopes (some policy))) [
          | inr m ↦ rw m tt
          | inl m ↦ rw m (rw e (redacted-Kept name policy e p m, tt))
        ]

    secure_column-IsDone :
        (r : Column V)
        → IsKnown table r
        → P r
        → IsDone (All Kept) (secure_column c table table_name user_scopes r)
    unfolding secure_column
    secure_column-IsDone (named name) h p =
        secure_name-IsDone name (get name table.columns) refl h p
    secure_column-IsDone (computed (column name t)) h p =
        elim (Bool-cases (
          not (is_own table_name (nonempty t))
          || is_column_met user_scopes (get name table.columns))) [
            | inl m ↦ rw m ((p, m), tt)
            | inr m ↦ rw m tt
          ]
    secure_column-IsDone (computed (literal value)) h p = ((p, tt), tt)
    secure_column-IsDone (computed (binary left op right)) h p = ((p, tt), tt)
    secure_column-IsDone (computed (function name args)) h p = ((p, tt), tt)

    secure_list-IsDone :
        (rs : List (Column V))
        → All (IsKnown table) rs
        → All P rs
        → IsDone (All Kept) (secure_list c table table_name user_scopes rs)
    unfolding secure_list
    secure_list-IsDone [] h p = tt
    secure_list-IsDone (r ∷ rs) h p =
        >>=-IsDone (All Kept) (All Kept) (secure_column c table table_name user_scopes r) _
          (secure_column-IsDone r h.0 p.0)
          λ first k.
            >>=-IsDone (All Kept) (All Kept) (secure_list c table table_name user_scopes rs) _
              (secure_list-IsDone rs h.1 p.1) λ others ks. All-append Kept first others k ks

    pub apply_column_security-IsDone :
        (rs : List (Column V))
        → All (IsKnown table) rs
        → All P rs
        → IsDone (OfListed Kept) (apply_column_security c table table_name user_scopes (listed rs))
    unfolding apply_column_security
    apply_column_security-IsDone rs h p =
        >>=-IsDone (All Kept) (OfListed Kept) (secure_list c table table_name user_scopes rs) _
          (secure_list-IsDone rs h p) λ requested k. k
