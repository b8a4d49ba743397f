-- ===== src/PgWire/Values.antt =====
-- decodeTextValue, decodeBinaryValue and their fast paths in parseDataRow: the value of a field from
-- its bytes. What the language's own functions give (`parseInt`, `new Date`, a float, …) are
-- parameters, and so is decodeBinaryArray. The server sends four bytes of an int4: what the code reads
-- of another number is left out.
use pureq.PgWire.{Texts, int32_bytes, int16_bytes, signed, word_of}
use pureq.PgWire.Rows.{FieldDescription, fast_decode}
use pureq.PgWire.Received.{
  to_int16, IsInt16, DecodesAscii, fast_decode_lem, int16-read, to_word, IsInt32, signed-to_word,
}
use pureq.Prelude.{
  ℕ, ◌+◌, ◌-◌, ◌*◌, ◌≡◌, refl, ap, Bool, true, false, not, Option, none, some, List, [], ◌∷◌, ltb,
  ◌==◌, number_key, if◌then◌else◌, some_of, arith, lt→ltb, le→not_ltb,
}
use pureq.Prelude.Int.{ℤ, pos, negsuc}

-- `none`: a throw. `is_t` is `=== "t"`; the functions on bytes are those of DataView.
pub record Values (e : Texts) (V : Type 0) : Type 0 where
  pub boolean : Bool → V
  pub text : e.Text → V
  pub integer : ℤ → V
  pub bytes : List ℕ → V
  pub is_t : e.Text → Bool
  pub parse_int : e.Text → V
  pub parse_float : e.Text → V
  pub date : e.Text → V
  pub json_parse : e.Text → Option V
  pub int64 : List ℕ → Option V
  pub float32 : List ℕ → Option V
  pub float64 : List ℕ → Option V
  pub timestamp : List ℕ → Option V
  pub uuid : List ℕ → V
  pub custom : ℤ → Option (List ℕ → Option V)
  pub decode_binary_array : ℤ → List ℕ → Option V

-- PgOids: is it one of these?
abbrev pub is_oid : List ℕ → ℤ → Bool
is_oid oids (pos n) = some_of (λ o. o == n) oids
is_oid oids (negsuc n) = false

-- `view.getInt16(0)`
unfoldable pub get_int16 : List ℕ → Option ℤ
get_int16 (a ∷ b ∷ rest) =
    some (if ltb (a * 256 + b) 32768 then pos (a * 256 + b) else negsuc (65535 - (a * 256 + b)))
get_int16 _ = none

-- `view.getInt32(0)`
unfoldable pub get_int32 : List ℕ → Option ℤ
get_int32 (a ∷ b ∷ c ∷ d ∷ rest) = some (signed (word_of a b c d))
get_int32 _ = none

-- `buf[0] !== 0`
unfoldable pub is_set : List ℕ → Bool
is_set [] = true
is_set (b ∷ bs) = not (b == 0)

abbrev pub without_version : List ℕ → List ℕ
without_version [] = []
without_version (b ∷ bs) = bs

module _ (e : Texts) {V : Type 0} (v : Values e V) where
  abbrev pub integer_of : Option ℤ → Option V
  integer_of none = none
  integer_of (some z) = some (v.integer z)

  abbrev pub decode_text_value : e.Text → ℤ → Option V
  decode_text_value t oid =
      if is_oid (16 ∷ []) oid
      then some (v.boolean (v.is_t t))
      else if is_oid (21 ∷ 23 ∷ 20 ∷ []) oid
      then some (v.parse_int t)
      else if is_oid (700 ∷ 701 ∷ 1700 ∷ []) oid
      then some (v.parse_float t)
      else if is_oid (114 ∷ 3802 ∷ []) oid
      then v.json_parse t
      else if is_oid (1082 ∷ 1114 ∷ 1184 ∷ []) oid
      then some (v.date t)
      else some (v.text t)

  unfoldable pub decode_scalar : ℤ → List ℕ → Option V
  unfolding get_int16 get_int32 is_set
  decode_scalar oid buf =
      if is_oid (16 ∷ []) oid
      then some (v.boolean (is_set buf))
      else if is_oid (21 ∷ []) oid
      then integer_of (get_int16 buf)
      else if is_oid (23 ∷ []) oid
      then integer_of (get_int32 buf)
      else if is_oid (20 ∷ []) oid
      then v.int64 buf
      else if is_oid (700 ∷ []) oid
      then v.float32 buf
      else if is_oid (701 ∷ []) oid
      then v.float64 buf
      else if is_oid (1114 ∷ 1184 ∷ []) oid
      then v.timestamp buf
      else if is_oid (3802 ∷ []) oid
      then v.json_parse (e.decode (without_version buf))
      else if is_oid (114 ∷ []) oid
      then v.json_parse (e.decode buf)
      else if is_oid (17 ∷ []) oid
      then some (v.bytes buf)
      else if is_oid (2950 ∷ []) oid
      then some (v.uuid buf)
      else if is_oid (1000 ∷ 1005 ∷ 1007 ∷ 1016 ∷ 1009 ∷ 1015 ∷ 1021 ∷ 1022 ∷ []) oid
      then v.decode_binary_array oid buf
      else some (v.text (e.decode buf))

  abbrev pub decode_custom : Option (List ℕ → Option V) → ℤ → List ℕ → Option V
  decode_custom none oid buf = decode_scalar oid buf
  decode_custom (some decoder) oid buf = decoder buf

  -- The fast paths go before the decoders that are registered.
  abbrev pub decode_binary_field : ℤ → List ℕ → Option V
  decode_binary_field oid buf =
      if is_oid (23 ∷ []) oid
      then integer_of (get_int32 buf)
      else if is_oid (1043 ∷ 25 ∷ []) oid
      then some (v.text (fast_decode e buf))
      else decode_custom (v.custom oid) oid buf

  -- In text format the fast paths do as decodeTextValue does.
  unfoldable pub decode_field : FieldDescription e.Text → List ℕ → Option V
  unfolding fast_decode decode_scalar get_int32
  decode_field field buf =
      if field.format == 0
      then decode_text_value (fast_decode e buf) field.data_type_oid
      else decode_binary_field field.data_type_oid buf

-- What a server sends of a value in binary format.
pub data Sent : Type 0 where
  sent_bool : Bool → Sent
  sent_int2 sent_int4 : ℤ → Sent
  sent_text : List ℕ → Sent

abbrev pub oid_of : Sent → ℕ
oid_of (sent_bool b) = 16
oid_of (sent_int2 z) = 21
oid_of (sent_int4 z) = 23
oid_of (sent_text bs) = 25

abbrev pub sent_bytes : Sent → List ℕ
sent_bytes (sent_bool true) = 1 ∷ []
sent_bytes (sent_bool false) = 0 ∷ []
sent_bytes (sent_int2 z) = int16_bytes (to_int16 z)
sent_bytes (sent_int4 z) = int32_bytes (to_word z)
sent_bytes (sent_text bs) = bs

abbrev pub Fits : Sent → Type 0
Fits (sent_bool b) = Unit
Fits (sent_int2 z) = IsInt16 z
Fits (sent_int4 z) = IsInt32 z
Fits (sent_text bs) = Unit

get_int16-bytes : (z : ℤ) → IsInt16 z → get_int16 (int16_bytes (to_int16 z)) ≡ some z
unfolding get_int16
get_int16-bytes (pos n) h = rw (int16-read n (omega (arith, h)), lt→ltb n 32768 h) refl
get_int16-bytes (negsuc n) h =
    rw (int16-read (65535 - n) (omega (arith, h)), le→not_ltb (65535 - n) 32768 (omega (arith, h)))
      (ap (λ m. some (negsuc m)) (omega (arith, h)))

module _ (e : Texts) {V : Type 0} (v : Values e V) where
  abbrev pub value_of : Sent → V
  value_of (sent_bool b) = v.boolean b
  value_of (sent_int2 z) = v.integer z
  value_of (sent_int4 z) = v.integer z
  value_of (sent_text bs) = v.text (e.decode bs)

  -- A bool, int2, int4 or text field in binary format gives the truth value, the number or the
  -- decoded text that the server sends of its type, when a number fits into the type and no decoder
  -- is registered for it. The decoder gives ASCII codes as the string of these codes.
  pub decode_field-sent :
      (law : DecodesAscii e) (field : FieldDescription e.Text) (s : Sent)
      → (field.format == 0) ≡ false
      → field.data_type_oid ≡ pos (oid_of s)
      → v.custom (pos (oid_of s)) ≡ none
      → Fits s
      → decode_field e v field (sent_bytes s) ≡ some (value_of s)
  unfolding decode_field is_set get_int32 decode_scalar
  decode_field-sent law field (sent_bool true) f o c h = rw (f, o) (rw c refl)
  decode_field-sent law field (sent_bool false) f o c h = rw (f, o) (rw c refl)
  decode_field-sent law field (sent_int2 z) f o c h =
      rw (f, o) (rw c (ap (integer_of e v) (get_int16-bytes z h)))
  decode_field-sent law field (sent_int4 z) f o c h =
      rw (f, o) (ap (λ n. some (v.integer n)) (signed-to_word z h))
  decode_field-sent law field (sent_text bs) f o c h =
      rw (f, o) (ap (λ t. some (v.text t)) (fast_decode_lem e law bs))
