-- ===== src/PgWire/Received.antt =====
-- The descriptions of rows as the server sends them, and what is read of them.
use pureq.PgWire.{Texts, int32_bytes, int16_bytes, signed, word_of}
use pureq.PgWire.Framing.{word_of-int32_bytes}
use pureq.PgWire.Rows.{
  Parsed, parsed, ◌>>=◌, FieldDescription, split_at_zero, is_ascii, fast_decode, read_metadata,
  read_field, read_fields, parse_row_description,
}
use pureq.Prelude.{
  ℕ, suc, ◌+◌, ◌-◌, ◌*◌, ◌/◌, ◌%◌, ◌<◌, ◌≡◌, refl, ap, true, Bool-cases, inl, inr, ltb, ◌∙◌, false,
  some, List, [], ◌∷◌, ◌++◌, map, All, ◌==◌, number_key, length, lt→ltb, le→not_ltb, arith,
}
use pureq.Prelude.Int.{ℤ, pos, negsuc}

-- A number as a word, and the numbers that fit.
abbrev pub to_word : ℤ → ℕ
to_word (pos n) = n
to_word (negsuc n) = 4294967295 - n

abbrev pub IsInt32 : ℤ → Type 0
IsInt32 (pos n) = n < 2147483648
IsInt32 (negsuc n) = n < 2147483648

pub signed-to_word :
    (z : ℤ)
    → IsInt32 z
    → signed (
        word_of
          (to_word z / 16777216 % 256)
          (to_word z / 65536 % 256)
          (to_word z / 256 % 256)
          (to_word z % 256))
      ≡ z
signed-to_word (pos n) h =
    rw (word_of-int32_bytes n (omega (arith, h))) (rw (lt→ltb n 2147483648 h) refl)
signed-to_word (negsuc n) h =
    rw (word_of-int32_bytes (4294967295 - n) (omega (arith, h))) (
      rw (le→not_ltb (4294967295 - n) 2147483648 (omega (arith, h))) (ap negsuc (omega (arith, h))))

-- A number of 16 bits with a sign, as two bytes.
abbrev pub to_int16 : ℤ → ℕ
to_int16 (pos n) = n
to_int16 (negsuc n) = 65535 - n

abbrev pub IsInt16 : ℤ → Type 0
IsInt16 (pos n) = n < 32768
IsInt16 (negsuc n) = n < 32768

pub to_int16-lt : (z : ℤ) → IsInt16 z → to_int16 z < 65536
to_int16-lt (pos n) h = omega (arith, h)
to_int16-lt (negsuc n) h = omega arith

-- What the server says of a field: the bytes of its name, and numbers with a sign.
pub record SentField : Type 0 where
  pub name : List ℕ
  pub table_oid : ℤ
  pub column_attr : ℤ
  pub data_type_oid : ℤ
  pub data_type_size : ℤ
  pub type_modifier : ℤ
  pub format : ℤ

abbrev pub metadata_bytes : SentField → List ℕ → List ℕ
metadata_bytes f rest =
    int32_bytes (to_word f.table_oid)
    ++ (int16_bytes (to_int16 f.column_attr)
        ++ (int32_bytes (to_word f.data_type_oid)
            ++ (int16_bytes (to_int16 f.data_type_size)
                ++ (int32_bytes (to_word f.type_modifier)
                    ++ (int16_bytes (to_int16 f.format) ++ rest)))))

abbrev pub fields_bytes : List SentField → List ℕ
fields_bytes [] = []
fields_bytes (f ∷ fs) = f.name ++ 0 ∷ metadata_bytes f (fields_bytes fs)

-- The name has no zero, and the numbers fit.
abbrev pub IsField : SentField → Type 0
IsField f =
    All (λ b. (b == 0) ≡ false) f.name
    × IsInt32 f.table_oid
    × IsInt16 f.column_attr
    × IsInt32 f.data_type_oid
    × IsInt16 f.data_type_size
    × IsInt32 f.type_modifier
    × IsInt16 f.format

pub int16-read : (w : ℕ) → w < 65536 → w / 256 % 256 * 256 + w % 256 ≡ w
int16-read w h = omega (arith, h)

split_at_zero-append :
    (bs rest : List ℕ)
    → All (λ b. (b == 0) ≡ false) bs
    → split_at_zero (bs ++ 0 ∷ rest) ≡ some (bs, rest)
unfolding split_at_zero
split_at_zero-append [] rest h = refl
split_at_zero-append (b ∷ bs) rest h = rw h.0 (rw (split_at_zero-append bs rest h.1) refl)

-- Of ASCII codes TextDecoder.decode gives the string of these codes.
abbrev pub DecodesAscii : Texts → Type 0
DecodesAscii e = (bs : List ℕ) → is_ascii bs ≡ true → e.ascii bs ≡ e.decode bs

-- The fast path for short names and texts gives what the decoder gives.
pub fast_decode_lem : (e : Texts) → DecodesAscii e → (bs : List ℕ) → fast_decode e bs ≡ e.decode bs
unfolding fast_decode
fast_decode_lem e law bs = elim (Bool-cases (ltb (length bs) 64)) [
  | inr long ↦ rw long refl
  | inl short ↦ elim (Bool-cases (is_ascii bs)) [
    | inl ascii ↦ rw (short, ascii) (law bs ascii)
    | inr other ↦ rw (short, other) refl
  ]
]

module _ (e : Texts) where
  -- The 16-bit numbers are read without their sign.
  abbrev pub received : SentField → FieldDescription e.Text
  received f = record {
    name = e.decode f.name;
    table_oid = f.table_oid;
    column_attr = to_int16 f.column_attr;
    data_type_oid = f.data_type_oid;
    data_type_size = to_int16 f.data_type_size;
    type_modifier = f.type_modifier;
    format = to_int16 f.format;
  }

  read_metadata-bytes :
      (f : SentField) (rest : List ℕ)
      → IsField f
      → read_metadata e (e.decode f.name) (metadata_bytes f rest) ≡ parsed (received f, rest)
  unfolding read_metadata
  read_metadata-bytes f rest h =
      rw
        (
          signed-to_word f.table_oid h.1,
          int16-read (to_int16 f.column_attr) (to_int16-lt f.column_attr h.2),
          signed-to_word f.data_type_oid h.3,
          int16-read (to_int16 f.data_type_size) (to_int16-lt f.data_type_size h.4),
          signed-to_word f.type_modifier h.5,
          int16-read (to_int16 f.format) (to_int16-lt f.format h.6),
        )
        refl

  abbrev then_fields :
      ℕ → FieldDescription e.Text × List ℕ → Parsed (List (FieldDescription e.Text))
  then_fields n r = read_fields e n r.1 >>= λ fields. parsed (r.0 ∷ fields)

  read_fields-named :
      (n : ℕ) (name rest : List ℕ)
      → read_fields e (suc n) (name ++ 0 ∷ rest)
        ≡ (read_field e (split_at_zero (name ++ 0 ∷ rest)) >>= then_fields n)
  unfolding read_fields
  read_fields-named n [] rest = refl
  read_fields-named n (b ∷ bs) rest = refl

module _ (e : Texts) (law : DecodesAscii e) where
  read_fields-bytes :
      (fs : List SentField)
      → All IsField fs
      → read_fields e (length fs) (fields_bytes fs) ≡ parsed (map (received e) fs)
  unfolding read_fields
  read_fields-bytes [] h = refl
  read_fields-bytes (f ∷ fs) h =
      let rest = metadata_bytes f (fields_bytes fs) in
      read_fields-named e (length fs) f.name rest
      ∙ ap (λ s. read_field e s >>= then_fields e (length fs))
          (split_at_zero-append f.name rest h.0.0)
      ∙ ap (λ n. read_metadata e n rest >>= then_fields e (length fs))
          (fast_decode_lem e law f.name)
      ∙ ap (λ m. m >>= then_fields e (length fs)) (read_metadata-bytes e f (fields_bytes fs) h.0)
      ∙ ap (λ m. m >>= λ fields. parsed (received e f ∷ fields)) (read_fields-bytes fs h.1)

  -- Of the description of rows that a server sends, with fewer than 65,536 fields, names without a
  -- zero and numbers that fit, every field is read with its name decoded and its numbers of 32 bits
  -- as they were sent; its numbers of 16 bits are read without a sign, so -1 as 65,535. The
  -- decoder gives ASCII codes as the string of these codes.
  pub parse_row_description-bytes :
      (fs : List SentField)
      → All IsField fs
      → length fs < 65536
      → parse_row_description e (int16_bytes (length fs) ++ fields_bytes fs)
        ≡ parsed (map (received e) fs)
  unfolding parse_row_description
  parse_row_description-bytes fs h small =
      rw (int16-read (length fs) small) (read_fields-bytes fs h)
