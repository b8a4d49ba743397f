-- ===== src/PgWire/ReceivedRow.antt =====
-- The rows as the server sends them, and what is read of them.
use pureq.PgWire.Rows.{
  Parsed, parsed, undecodable, ◌>>=◌, FieldDescription, Row, set_null, set_value, first_of,
  others_of,
}
use pureq.Prelude.{
  ℕ, ◌<◌, ◌≡◌, false, Option, none, some, List, [], ◌∷◌, ◌++◌, All, ◌==◌, number_key, length, Key,
}
use pureq.Prelude.JsMap.{get}

module _ {Name V : Type 0} where
  abbrev pub in_front : Name × V → Option (Row Name V) → Option (Row Name V)
  in_front e none = none
  in_front e (some row) = some (e ∷ row)

  abbrev pub in_front_decoded : Name → Option V → Option (Row Name V) → Option (Row Name V)
  in_front_decoded name none row = none
  in_front_decoded name (some v) row = in_front (name, v) row

  -- A row with more values, or none where one of them cannot be decoded.
  abbrev pub onto : Row Name V → Option (Row Name V) → Parsed (Row Name V)
  onto row none = undecodable
  onto row (some more) = parsed (row ++ more)

module _ {Name V : Type 0} ⦃key : Key Name⦄ (null : V)
    (decode_value : FieldDescription Name → List ℕ → Option V) where
  -- The values, null or bytes, put into a row one after the other.
  abbrev row_of :
      List (FieldDescription Name) → List (Option (List ℕ)) → Row Name V → Parsed (Row Name V)
  row_of fields [] row = parsed row
  row_of fields (none ∷ ps) row =
      row_of (others_of fields) ps (set_null null decode_value (first_of fields) row)
  row_of fields (some p ∷ ps) row =
      set_value null decode_value (first_of fields) p row >>= row_of (others_of fields) ps

  -- A value that is not null has fewer bytes than a word with a sign can count.
  abbrev pub IsSmall : Option (List ℕ) → Type 0
  IsSmall none = Unit
  IsSmall (some p) = length p < 2147483648

  -- The names of the fields with their values, in order, up to the last field or value. `none`: a
  -- value cannot be decoded.
  abbrev pub sent_row : List (FieldDescription Name) → List (Option (List ℕ)) → Option (Row Name V)
  sent_row [] ps = some []
  sent_row (f ∷ fs) [] = some []
  sent_row (f ∷ fs) (none ∷ ps) = in_front (f.name, null) (sent_row fs ps)
  sent_row (f ∷ fs) (some p ∷ ps) = in_front_decoded f.name (decode_value f p) (sent_row fs ps)

  abbrev pub DistinctNames : List (FieldDescription Name) → Type 0
  DistinctNames [] = Unit
  DistinctNames (f ∷ fs) = All (λ g. (f.name == g.name) ≡ false) fs × DistinctNames fs

  abbrev Unset : Row Name V → List (FieldDescription Name) → Type 0
  Unset row fs = All (λ f. get f.name row ≡ none) fs

  -- The rest is read as stated, whatever row it is put into.
  abbrev IsReadOnto : List (FieldDescription Name) → List (Option (List ℕ)) → Type 0
  IsReadOnto fs ps =
      (row : Row Name V) → Unset row fs → row_of fs ps row ≡ onto row (sent_row fs ps)
