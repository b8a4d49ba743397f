-- ===== src/PgWire/Rows.antt =====
-- parseRowDescription, parseDataRow and parseErrorResponse. The bytes that are left stand for the data
-- with an offset. The decoding of one value is a parameter.
use pureq.PgWire.{Texts, signed, word_of}
use pureq.Prelude.{
  ℕ, zero, suc, ◌+◌, ◌*◌, Bool, true, ◌&&◌, Option, none, some, List, [], ◌∷◌, ltb, leb, ◌==◌,
  number_key, if◌then◌else◌, length, take, drop, Key,
}
use pureq.Prelude.Int.{ℤ, pos, negsuc}
use pureq.Prelude.JsMap.{set}

pub data Parsed {ℓ} (A : Type ℓ) : Type ℓ where
  parsed : A → Parsed A
  too_short unexpected_end not_terminated metadata_truncated length_truncated negative_length
        data_truncated undecodable :
      Parsed A

infixl 5 ◌>>=◌
abbrev pub ◌>>=◌ {ℓ κ} : {A : Type ℓ} {B : Type κ} → Parsed A → (A → Parsed B) → Parsed B
parsed a >>= f = f a
too_short >>= f = too_short
unexpected_end >>= f = unexpected_end
not_terminated >>= f = not_terminated
metadata_truncated >>= f = metadata_truncated
length_truncated >>= f = length_truncated
negative_length >>= f = negative_length
data_truncated >>= f = data_truncated
undecodable >>= f = undecodable

pub record FieldDescription (Name : Type 0) : Type 0 where
  pub name : Name
  pub table_oid : ℤ
  pub column_attr : ℕ
  pub data_type_oid : ℤ
  pub data_type_size : ℕ
  pub type_modifier : ℤ
  pub format : ℕ

-- The bytes in front of the first zero, and those behind it.
unfoldable pub split_at_zero : List ℕ → Option (List ℕ × List ℕ)
split_at_zero [] = none
split_at_zero (b ∷ bs) =
    let rest = split_at_zero bs in
    if b == 0 then some ([], bs) else elim rest [ none ↦ none | some r ↦ some (b ∷ r.0, r.1) ]

unfoldable pub is_ascii : List ℕ → Bool
is_ascii [] = true
is_ascii (b ∷ bs) = let rest = is_ascii bs in leb b 127 && rest

module _ (e : Texts) where
  -- The cache of strings is not used.
  unfoldable pub fast_decode : List ℕ → e.Text
  unfolding is_ascii
  fast_decode bs = if ltb (length bs) 64 && is_ascii bs then e.ascii bs else e.decode bs

  -- The 18 bytes behind a name.
  unfoldable pub read_metadata : e.Text → List ℕ → Parsed (FieldDescription e.Text × List ℕ)
  read_metadata name
        (a ∷ b ∷ c ∷ d ∷ f ∷ g ∷ h ∷ i ∷ j ∷ k ∷ l ∷ m ∷ n ∷ o ∷ p ∷ q ∷ r ∷ s ∷ rest) =
      parsed (
        record {
          name = name;
          table_oid = signed (word_of a b c d);
          column_attr = f * 256 + g;
          data_type_oid = signed (word_of h i j k);
          data_type_size = l * 256 + m;
          type_modifier = signed (word_of n o p q);
          format = r * 256 + s;
        },
        rest,
      )
  read_metadata name _ = metadata_truncated

  abbrev pub read_field : Option (List ℕ × List ℕ) → Parsed (FieldDescription e.Text × List ℕ)
  read_field none = not_terminated
  read_field (some (name, rest)) = read_metadata (fast_decode name) rest

  unfoldable pub read_fields : ℕ → List ℕ → Parsed (List (FieldDescription e.Text))
  unfolding read_metadata split_at_zero
  read_fields zero rest = parsed []
  read_fields (suc n) [] = unexpected_end
  read_fields (suc n) (b ∷ bs) = do
    (field, rest) ← read_field (split_at_zero (b ∷ bs))
    fields ← read_fields n rest
    parsed (field ∷ fields)

  unfoldable pub parse_row_description : List ℕ → Parsed (List (FieldDescription e.Text))
  unfolding read_fields
  parse_row_description (a ∷ b ∷ rest) = read_fields (a * 256 + b) rest
  parse_row_description _ = too_short

abbrev pub first_of :
    {Name : Type 0} → List (FieldDescription Name) → Option (FieldDescription Name)
first_of [] = none
first_of (field ∷ fields) = some field

abbrev pub others_of : {Name : Type 0} → List (FieldDescription Name) → List (FieldDescription Name)
others_of [] = []
others_of (field ∷ fields) = fields

abbrev pub Row : Type 0 → Type 0 → Type 0
Row Name V = List (Name × V)

-- A row is an object with the values of the columns; `decode_value` gives that of a field from its
-- bytes, or throws.
module _ {Name V : Type 0} ⦃key : Key Name⦄ (null : V)
    (decode_value : FieldDescription Name → List ℕ → Option V) where
  -- A value beyond the last field is skipped.
  abbrev pub set_null : Option (FieldDescription Name) → Row Name V → Row Name V
  set_null none row = row
  set_null (some field) row = set field.name null row

  abbrev pub set_decoded : FieldDescription Name → Option V → Row Name V → Parsed (Row Name V)
  set_decoded field none row = undecodable
  set_decoded field (some v) row = parsed (set field.name v row)

  abbrev pub set_value : Option (FieldDescription Name) → List ℕ → Row Name V → Parsed (Row Name V)
  set_value none bytes row = parsed row
  set_value (some field) bytes row = set_decoded field (decode_value field bytes) row

  -- One value: its size, or -1 for null, and its bytes. What is left comes back.
  unfoldable pub read_value :
      Option (FieldDescription Name) → ℤ → List ℕ → Row Name V → Parsed (Row Name V × List ℕ)
  unfolding set
  read_value field (negsuc zero) rest row = parsed (set_null field row, rest)
  read_value field (negsuc (suc n)) rest row = negative_length
  read_value field (pos n) rest row =
      if ltb (length rest) n
      then data_truncated
      else set_value field (take n rest) row >>= λ filled. parsed (filled, drop n rest)

  unfoldable pub read_values :
      ℕ → List (FieldDescription Name) → List ℕ → Row Name V → Parsed (Row Name V)
  unfolding read_value
  read_values zero fields rest row = parsed row
  read_values (suc n) fields (a ∷ b ∷ c ∷ d ∷ rest) row = do
    (filled, left) ← read_value (first_of fields) (signed (word_of a b c d)) rest row
    read_values n (others_of fields) left filled
  read_values (suc n) fields _ row = length_truncated

  unfoldable pub parse_data_row : List ℕ → List (FieldDescription Name) → Parsed (Row Name V)
  unfolding read_values
  parse_data_row (a ∷ b ∷ rest) fields = read_values (a * 256 + b) fields rest []
  parse_data_row _ fields = too_short
