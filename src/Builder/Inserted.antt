-- ===== src/Builder/Inserted.antt =====
-- The user's id among the values that an insert with a context writes.
use pureq.Query.{wrong_user, Answer, done, refused, out_of_fuel, Literal, one, many}
use pureq.Builder.{Table, QueryContext, Constants}
use pureq.Builder.Prepare.{with_user, inserted_values}
use pureq.Prelude.{
  ◌≡◌, refl, sym, ap, ◌∙◌, Bool, true, false, Option, none, some, List, [], ◌∷◌, ◌++◌, ◌==◌,
  if◌then◌else◌, is_some, Bool-cases, inl, inr,
}
use pureq.Prelude.Text.{Text, codes, codes_key}
use pureq.Prelude.JsMap.{get, get-set, set_absent}

module _ {V : Type 0} (c : Constants V) where
  -- `===` on what a literal holds and a value
  abbrev pub is_user : V → Literal V → Bool
  is_user user_id (one v) = c.same_value v user_id
  is_user user_id (many vs) = false

  -- What is inserted has the user's id and else what it had. What is refused had another one.
  abbrev pub IsOwn : V → List (Text × Literal V) → Answer (List (Text × Literal V)) → Type 0
  IsOwn user_id values (done vs) =
      ((v : Literal V) × (get (codes "userId") vs ≡ some v) × (is_user user_id v ≡ true))
      × ((name : Text) → (codes "userId" == name) ≡ false → get name vs ≡ get name values)
  IsOwn user_id values (refused r) =
      (r ≡ wrong_user)
      × ((v : Literal V) × (get (codes "userId") values ≡ some v) × (is_user user_id v ≡ false))
  IsOwn user_id values out_of_fuel = ⊥

  get-append_absent :
      (k name : Text) (v : Literal V) (m : List (Text × Literal V))
      → get k m ≡ none
      → get name (m ++ (k, v) ∷ []) ≡ (if k == name then some v else get name m)
  get-append_absent k name v m h = ap (get name) (sym (set_absent k v m h)) ∙ get-set k name v m

  module _ (user_id : V) (same : c.same_value user_id user_id ≡ true)
      (values : List (Text × Literal V)) where
    with_user-IsOwn :
        (found : Option (Literal V))
        → get (codes "userId") values ≡ found
        → IsOwn user_id values (with_user c user_id found values)
    unfolding with_user
    with_user-IsOwn none e = (
      (
        one user_id,
        get-append_absent (codes "userId") (codes "userId") (one user_id) values e,
        same,
      ),
      λ name d. get-append_absent (codes "userId") name (one user_id) values e ∙ rw d refl,
    )
    with_user-IsOwn (some (one v)) e = elim (Bool-cases (c.same_value v user_id)) [
      | inl p ↦ rw p ((one v, e, p), λ name d. refl)
      | inr p ↦ rw p (refl, (one v, e, p))
    ]
    with_user-IsOwn (some (many vs)) e = (refl, (many vs, e, refl))

    -- An insert with a context that has a user, into a table that has a column for users, writes
    -- that user's id and the other values as they were given; or the values had another user's id,
    -- and it is refused. The user's id must be a value that equals itself.
    pub inserted_values-IsOwn :
        (table : Table V) (context : QueryContext V)
        → context.user_id ≡ some user_id
        → is_some (get (codes "userId") table.columns) ≡ true
        → IsOwn user_id values (inserted_values c table (some context) values)
    unfolding inserted_values
    inserted_values-IsOwn table context u t =
        rw u (rw t (with_user-IsOwn (get (codes "userId") values) refl))
