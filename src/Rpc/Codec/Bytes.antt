-- ===== src/Rpc/Codec/Bytes.antt =====
-- The format of codec.ts, without the slab: the bytes of each value, one after the other.
use pureq.Rpc.{Platform}
use pureq.Prelude.{ℕ, Option, none, some, List, [], ◌∷◌, ◌++◌, if◌then◌else◌, length}
use pureq.Rpc.Codec.{
  null_tag, bool_tag, int_tag, float_tag, string_tag, date_tag, object_tag, array_tag, buffer_tag,
  error_tag, type_id, word_bytes, Value, Items, Fields, null, undefined, unsupported, bool, number,
  string, date, error, buffer, array, object, no_items, item, no_fields, field, count_items,
  count_fields,
}

module _ (p : Platform) where
  abbrev pub text_bytes : p.Text → List ℕ
  text_bytes t = type_id string_tag ∷ word_bytes (length (p.utf8 t)) ++ p.utf8 t

  abbrev pub int_or_float_bytes : p.Double → Option ℕ → List ℕ
  int_or_float_bytes d (some w) = type_id int_tag ∷ word_bytes w
  int_or_float_bytes d none = type_id float_tag ∷ p.set_float64 d

  abbrev pub number_bytes : p.Double → List ℕ
  number_bytes d = int_or_float_bytes d (p.as_int32 d)

  unfoldable mutual
    pub bytes : Value p → List ℕ
    bytes null = type_id null_tag ∷ []
    bytes undefined = type_id null_tag ∷ []
    bytes unsupported = []
    bytes (bool b) = type_id bool_tag ∷ (if b then 1 else 0) ∷ []
    bytes (number d) = number_bytes d
    bytes (string t) = text_bytes t
    bytes (date d) = type_id date_tag ∷ p.set_float64 d
    bytes (error t) = type_id error_tag ∷ text_bytes t
    bytes (buffer bs) = type_id buffer_tag ∷ word_bytes (length bs) ++ bs
    bytes (array xs) = type_id array_tag ∷ word_bytes (count_items p xs) ++ item_bytes xs
    bytes (object fs) = type_id object_tag ∷ word_bytes (count_fields p fs) ++ field_bytes fs

    pub item_bytes : Items p → List ℕ
    item_bytes no_items = []
    item_bytes (item v xs) = bytes v ++ item_bytes xs

    pub field_bytes : Fields p → List ℕ
    field_bytes no_fields = []
    field_bytes (field k v fs) = text_bytes k ++ (bytes v ++ field_bytes fs)
