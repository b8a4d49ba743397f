-- ===== src/Rpc/Codec/Examples.antt =====
-- Runs of the codec on the sample platform.
use pureq.Rpc.Sample.{sample}
use pureq.Rpc.Codec.{
  ok, violation, out_of_fuel, Value, unsupported, bool, number, string, array, object, no_items,
  item, no_fields, field,
}
use pureq.Rpc.Codec.Bytes.{bytes}
use pureq.Rpc.Codec.Growing.{half_slab}
use pureq.Rpc.Codec.Encode.{encode, encode_lem}
use pureq.Rpc.Codec.Decode.{decode}
use pureq.Rpc.Codec.Termination.{decode-ne-out_of_fuel}
use pureq.Prelude.{ℕ, ◌≡◌, ◌≢◌, ◌⊎◌, ◌<◌, refl, true, none, some, List, [], ◌∷◌, length}

abbrev no_text : Value sample → List ℕ
no_text v = []

abbrev with_mark : Value sample
with_mark = string (65279 ∷ 97 ∷ [])

abbrev letter : Value sample
letter = object (field (97 ∷ []) (array (item (bool true) (item (number 300) no_items))) no_fields)

-- a function between two values
abbrev with_function : Value sample
with_function = array (item unsupported (item (bool true) no_items))

abbrev letter_bytes : List ℕ
letter_bytes =
    6 ∷ 1 ∷ 0 ∷ 0 ∷ 0 ∷ 4 ∷ 1 ∷ 0 ∷ 0 ∷ 0 ∷ 97 ∷ 7 ∷ 2 ∷ 0 ∷ 0 ∷ 0 ∷ 1 ∷ 1 ∷ 2 ∷ 44 ∷ 1 ∷ 0 ∷ 0 ∷ []

bytes-letter : bytes sample letter ≡ letter_bytes
unfolding bytes
bytes-letter = refl

encode-letter : encode sample (some 4) letter ≡ some letter_bytes
unfolding encode
encode-letter = refl

decode-letter : decode sample no_text letter_bytes ≡ ok letter
unfolding decode
decode-letter = refl

-- A value that no branch writes is counted, and the decoder misses it.
encode-with_function : encode sample none with_function ≡ some (7 ∷ 2 ∷ 0 ∷ 0 ∷ 0 ∷ 1 ∷ 1 ∷ [])
unfolding encode
encode-with_function = refl

decode-with_function : decode sample no_text (bytes sample with_function) ≡ violation
unfolding decode bytes
decode-with_function = refl

received-with_mark : decode sample no_text (bytes sample with_mark) ≡ ok (string (97 ∷ []))
unfolding decode bytes
received-with_mark = refl

decode-proto :
    decode sample no_text (6 ∷ 1 ∷ 0 ∷ 0 ∷ 0 ∷ 4 ∷ 3 ∷ 0 ∷ 0 ∷ 0 ∷ 95 ∷ 95 ∷ 112 ∷ 0 ∷ [])
    ≡ ok (object no_fields)
unfolding decode
decode-proto = refl

decode-large_array : decode sample no_text (7 ∷ 0 ∷ 0 ∷ 0 ∷ 1 ∷ []) ≡ violation
unfolding decode
decode-large_array = refl

encode_lem_example :
    (encode sample (some 4) letter ≡ some (bytes sample letter))
    ⊎ ((encode sample (some 4) letter ≡ none) × (half_slab < length (bytes sample letter)))
encode_lem_example = encode_lem sample (some 4) letter

decode-ne-out_of_fuel_example : decode sample no_text (7 ∷ 0 ∷ 0 ∷ 0 ∷ 1 ∷ []) ≢ out_of_fuel
decode-ne-out_of_fuel_example = decode-ne-out_of_fuel sample no_text (7 ∷ 0 ∷ 0 ∷ 0 ∷ 1 ∷ [])
