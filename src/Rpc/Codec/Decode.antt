-- ===== src/Rpc/Codec/Decode.antt =====
-- `decode` of codec.ts.
use pureq.Rpc.{Platform}
use pureq.Prelude.{
  ℕ, zero, suc, ◌+◌, ◌*◌, Option, none, some, List, [], ◌∷◌, ◌==◌, number_key, if◌then◌else◌,
  length,
}
use pureq.Rpc.Codec.{
  Tag, null_tag, bool_tag, int_tag, float_tag, string_tag, date_tag, object_tag, array_tag,
  buffer_tag, error_tag, tag_of, Result, ok, violation, out_of_fuel, bind, read_word, read_bytes,
  read_length, max_string, max_items, Value, Items, Fields, null, bool, number, string, date, error,
  buffer, array, object, no_items, item, no_fields, field,
}

-- `text_of` is `String(v)` of a value that is not a text.
module _ (p : Platform) (text_of : Value p → p.Text) where
  abbrev pub key_text : Value p → p.Text
  key_text (string t) = t
  key_text v = text_of v

  -- `obj[key] = value`, where `__proto__` sets the prototype and no property.
  unfoldable pub set_field : p.Text → Value p → Fields p → Fields p
  set_field k v no_fields = field k v no_fields
  set_field k v (field j w fs) =
      let rest = set_field k v fs in if p.same_text.same j k then field j v fs else field j w rest

  unfoldable pub assign : p.Text → Value p → Fields p → Fields p
  unfolding set_field
  assign k v fs = if p.same_text.same k p.proto then fs else set_field k v fs

  abbrev pub Read : Type 0 → Type 0
  Read A = List ℕ → Result (A × List ℕ)

  unfoldable pub read_bool : Read (Value p)
  read_bool [] = violation
  read_bool (b ∷ bs) = ok (bool (b == 1), bs)

  unfoldable pub read_int : Read (Value p)
  unfolding read_word
  read_int bs = bind (read_word bs) λ (w, rest). ok (number (p.of_int32 w), rest)

  unfoldable pub read_double : Read p.Double
  unfolding read_bytes
  read_double bs = bind (read_bytes 8 bs) λ (b, rest). ok (p.get_float64 b, rest)

  unfoldable pub read_text : Read (Value p)
  unfolding read_length read_bytes
  read_text bs =
      bind (read_length max_string bs)
        λ (n, rest). bind (read_bytes n rest) λ (b, rest'). ok (string (p.from_utf8 b), rest')

  unfoldable pub read_buffer : Read (Value p)
  unfolding read_word read_bytes
  read_buffer bs =
      bind (read_word bs) λ (n, rest). bind (read_bytes n rest) λ (b, rest'). ok (buffer b, rest')

  -- The `switch` of `read`, given what the recursive calls come to.
  unfoldable pub read_tagged :
      Read (Value p) → (ℕ → Read (Items p)) → (ℕ → Read (Fields p)) → Option Tag → Read (Value p)
  unfolding read_bool read_int read_double read_text read_buffer read_length
  read_tagged next items fields none bs = violation
  read_tagged next items fields (some null_tag) bs = ok (null, bs)
  read_tagged next items fields (some bool_tag) bs = read_bool bs
  read_tagged next items fields (some int_tag) bs = read_int bs
  read_tagged next items fields (some float_tag) bs =
      bind (read_double bs) λ (d, rest). ok (number d, rest)
  read_tagged next items fields (some string_tag) bs = read_text bs
  read_tagged next items fields (some date_tag) bs =
      bind (read_double bs) λ (d, rest). ok (date d, rest)
  read_tagged next items fields (some error_tag) bs =
      bind (next bs) λ (v, rest). ok (error (key_text v), rest)
  read_tagged next items fields (some array_tag) bs =
      bind (read_length max_items bs)
        λ (n, rest). bind (items n rest) λ (xs, rest'). ok (array xs, rest')
  read_tagged next items fields (some object_tag) bs =
      bind (read_length max_items bs)
        λ (n, rest). bind (fields n rest) λ (fs, rest'). ok (object fs, rest')
  read_tagged next items fields (some buffer_tag) bs = read_buffer bs

  -- `read`. Each call costs a unit of fuel; `read_items` and `read_fields` are the loops.
  unfoldable mutual
    unfolding read_tagged tag_of assign

    pub read : ℕ → Read (Value p)
    read zero bs = out_of_fuel
    read (suc f) [] = violation
    read (suc f) (t ∷ bs) =
        read_tagged (read f) (read_items f) (λ n. read_fields f n no_fields) (tag_of t) bs

    pub read_items : ℕ → ℕ → Read (Items p)
    read_items zero n bs = out_of_fuel
    read_items (suc f) zero bs = ok (no_items, bs)
    read_items (suc f) (suc n) bs =
        bind (read f bs)
          λ (v, rest). bind (read_items f n rest) λ (xs, rest'). ok (item v xs, rest')

    pub read_fields : ℕ → ℕ → Fields p → Read (Fields p)
    read_fields zero n obj bs = out_of_fuel
    read_fields (suc f) zero obj bs = ok (obj, bs)
    read_fields (suc f) (suc n) obj bs = bind (read f bs) λ (k, rest).
        bind (read f rest) λ (v, rest'). read_fields f n (assign (key_text k) v obj) rest'

  -- What stands behind the value is not looked at.
  unfoldable pub decode : List ℕ → Result (Value p)
  unfolding read
  decode bs = bind (read (2 * length bs + 1) bs) λ (v, rest). ok v
