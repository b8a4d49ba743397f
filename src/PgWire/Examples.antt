-- ===== src/PgWire/Examples.antt =====
-- Messages with texts of bytes.
use pureq.PgWire.{
  Texts, ◌>>=◌, null_param, text_param, encode_bind, encode_sync, set_bytes, set_byte,
  decode_message,
}
use pureq.PgWire.Encoded.{
  message, Request, parse, bind, encode_request, type_of, body_of, encode_request-message,
}
use pureq.PgWire.Framing.{decode_message-take, encode_request-decode_message}
use pureq.PgWire.Rows.{
  parsed, negative_length, data_truncated, fast_decode, parse_row_description, parse_data_row,
}
use pureq.PgWire.Received.{SentField, fields_bytes, received, parse_row_description-bytes}
use pureq.PgWire.{int16_bytes}
use pureq.PgWire.Received.{to_word}
use pureq.PgWire.Rows.{FieldDescription}
use pureq.PgWire.Values.{Values, decode_field, sent_int2, sent_bytes, value_of, decode_field-sent}
use pureq.Prelude.{◌+◌, ◌==◌, ◌≡◌, refl, none, some, [], ◌∷◌, ◌++◌, map, length, take, arith}
use pureq.Prelude.Int.{pos, negsuc}
use pureq.Prelude.Text.{Text, codes, codes_key}

abbrev plain : Texts
plain = record {
  Text = Text;
  encode = λ t. t;
  units = length;
  ascii = λ t. t;
  decode = λ t. t;
  Json = Text;
  stringify = λ t. t;
}

abbrev query : Request plain
query = parse [] (codes "SELECT $1") (23 ∷ [])

abbrev values : Request plain
values = bind [] [] (text_param (codes "7") ∷ null_param ∷ []) (1 ∷ [])

sync_test : encode_sync ≡ some (83 ∷ 0 ∷ 0 ∷ 0 ∷ 4 ∷ [])
unfolding set_bytes set_byte
sync_test = refl

values_test :
    encode_request plain values
    ≡ some (
        66 ∷ 0 ∷ 0 ∷ 0 ∷ 25 ∷ 0 ∷ 0 ∷ 0 ∷ 1 ∷ 0 ∷ 0 ∷ 0 ∷ 2 ∷ 0 ∷ 0 ∷ 0 ∷ 1 ∷ 55 ∷ 255 ∷ 255 ∷ 255
        ∷ 255 ∷ 0 ∷ 1 ∷ 0 ∷ 1 ∷ [])
unfolding encode_bind
values_test = refl

encode_request-message_example :
    encode_request plain values ≡ some (message (type_of plain values) (body_of plain values))
encode_request-message_example = encode_request-message plain values

encode_request-decode_message_example :
    (encode_request plain query >>= λ b. decode_message (b ++ 83 ∷ 0 ∷ []))
    ≡ some (
      record { type = type_of plain query; body = body_of plain query },
      pos (length (body_of plain query) + 5),
    )
encode_request-decode_message_example =
    encode_request-decode_message plain query (83 ∷ 0 ∷ []) (omega arith)

decode_message-take_example : decode_message (take 6 (message 90 (73 ∷ 0 ∷ []))) ≡ none
decode_message-take_example = decode_message-take 90 (73 ∷ 0 ∷ []) (omega arith) 6 (omega arith)

-- A size of -1: no byte is taken.
stuck_test :
    decode_message (90 ∷ 255 ∷ 255 ∷ 255 ∷ 255 ∷ 73 ∷ [])
    ≡ some (record { type = 90; body = [] }, pos 0)
unfolding decode_message
stuck_test = refl

abbrev id_field : SentField
id_field = record {
  name = codes "id";
  table_oid = pos 16400;
  column_attr = pos 1;
  data_type_oid = pos 23;
  data_type_size = pos 4;
  type_modifier = negsuc 0;
  format = pos 0;
}

parse_row_description-bytes_example :
    parse_row_description plain (int16_bytes 1 ++ fields_bytes (id_field ∷ []))
    ≡ parsed (map (received plain) (id_field ∷ []))
parse_row_description-bytes_example =
    parse_row_description-bytes plain (λ bs ascii. refl) (id_field ∷ [])
      (
        (
          (refl, (refl, tt)),
          omega arith,
          omega arith,
          omega arith,
          omega arith,
          omega arith,
          omega arith,
        ),
        tt,
      )
      (omega arith)

-- The size of a type of variable length, -1, is read as 65,535.
variable_size_test :
    parse_row_description plain
      (int16_bytes 1 ++ fields_bytes (record id_field { data_type_size = negsuc 0 } ∷ []))
    ≡ parsed (received plain (record id_field { data_type_size = negsuc 0 }) ∷ [])
unfolding parse_row_description fast_decode
variable_size_test = refl

negative_test :
    parse_data_row []
      (λ field bytes. some bytes)
      (0 ∷ 1 ∷ 255 ∷ 255 ∷ 255 ∷ 254 ∷ [])
      (received plain id_field ∷ [])
    ≡ negative_length
unfolding parse_data_row
negative_test = refl

truncated_test :
    parse_data_row []
      (λ field bytes. some bytes)
      (0 ∷ 1 ∷ 0 ∷ 0 ∷ 0 ∷ 2 ∷ 55 ∷ [])
      (received plain id_field ∷ [])
    ≡ data_truncated
unfolding parse_data_row
truncated_test = refl

abbrev literal_values : Values plain Text
literal_values = record {
  boolean = λ b. [];
  text = λ t. t;
  integer = λ z. to_word z ∷ [];
  bytes = λ bs. bs;
  is_t = λ t. t == codes "t";
  parse_int = λ t. t;
  parse_float = λ t. t;
  date = λ t. t;
  json_parse = λ t. none;
  int64 = λ bs. none;
  float32 = λ bs. none;
  float64 = λ bs. none;
  timestamp = λ bs. none;
  uuid = λ bs. bs;
  custom = λ oid. none;
  decode_binary_array = λ oid bs. none;
}

abbrev small_field : FieldDescription Text
small_field = record (received plain id_field) { data_type_oid = pos 21; format = 1 }

decode_field-sent_example :
    decode_field plain literal_values small_field (sent_bytes (sent_int2 (negsuc 4)))
    ≡ some (value_of plain literal_values (sent_int2 (negsuc 4)))
decode_field-sent_example =
    decode_field-sent plain literal_values (λ bs ascii. refl) small_field (sent_int2 (negsuc 4))
      refl refl refl (omega arith)
