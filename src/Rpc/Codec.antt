-- ===== src/Rpc/Codec.antt =====
-- packages/rpc/src/runtime/shared/codec.ts: values to bytes and back. `encode` writes chunks to a
-- slab that grows; `decode` reads the bytes that are left. A thrown error is `none` in `encode` and
-- `violation` in `decode`. A call stack that is exhausted by the depth of a value is left out, and
-- so is the place of integer-like keys, which the language puts in front of the others.
pub mod Bytes
pub mod Growing
pub mod Encode
pub mod Decode
pub mod Termination
pub mod Received
pub mod RoundTrip
pub mod Faithful
mod Examples
use pureq.Rpc.{Platform}
use pureq.Prelude.{
  ℕ, zero, suc, ◌+◌, ◌*◌, ◌/◌, ◌%◌, ◌^◌, max, Bool, true, false, Option, none, some, List, [], ◌∷◌,
  ◌++◌, ltb, leb, ◌==◌, number_key, if◌then◌else◌, length, take, drop,
}

-- TYPE_IDS
pub data Tag : Type 0 where
  null_tag bool_tag int_tag float_tag string_tag date_tag object_tag array_tag buffer_tag
        error_tag :
      Tag

abbrev pub type_id : Tag → ℕ
type_id null_tag = 0
type_id bool_tag = 1
type_id int_tag = 2
type_id float_tag = 3
type_id string_tag = 4
type_id date_tag = 5
type_id object_tag = 6
type_id array_tag = 7
type_id buffer_tag = 8
type_id error_tag = 9

-- The `switch`.
unfoldable pub tag_of : ℕ → Option Tag
tag_of n =
    if n == 0
    then some null_tag
    else if n == 1
    then some bool_tag
    else if n == 2
    then some int_tag
    else if n == 3
    then some float_tag
    else if n == 4
    then some string_tag
    else if n == 5
    then some date_tag
    else if n == 9
    then some error_tag
    else if n == 7
    then some array_tag
    else if n == 6
    then some object_tag
    else if n == 8
    then some buffer_tag
    else none

-- `word & 0xff`, `(word >> 8) & 0xff`, …
abbrev pub word_bytes : ℕ → List ℕ
word_bytes w = (w % 256) ∷ (w / 256 % 256) ∷ (w / 65536 % 256) ∷ (w / 16777216 % 256) ∷ []

pub data Result {ℓ} (A : Type ℓ) : Type ℓ where
  ok : A → Result A
  violation out_of_fuel : Result A

abbrev pub bind {ℓ κ} : {A : Type ℓ} {B : Type κ} → Result A → (A → Result B) → Result B
bind (ok a) f = f a
bind violation f = violation
bind out_of_fuel f = out_of_fuel

-- The array that is written to: its length, its first bytes (those behind them are zero), and the
-- offset of the next byte. Of an array that is passed to `encode` only the length is kept.
pub record Slab : Type 0 where
  pub capacity : ℕ
  pub cells : List ℕ
  pub offset : ℕ

abbrev pub max_slab : ℕ
max_slab = 128 * 1024 * 1024

-- The bytes over those at an index.
unfoldable pub store : ℕ → List ℕ → List ℕ → List ℕ
store zero bytes cells = bytes ++ drop (length bytes) cells
store (suc i) bytes [] = 0 ∷ store i bytes []
store (suc i) bytes (x ∷ xs) = x ∷ store i bytes xs

-- An array that is too short is copied into a longer one.
unfoldable pub ensure : ℕ → Slab → Option Slab
unfolding store
ensure size s =
    let new_size = max (s.capacity * 2) (s.offset + size) in
    if ltb s.capacity (s.offset + size)
    then (if ltb max_slab new_size
        then none
        else some (record s { capacity = new_size; cells = store 0 s.cells [] }))
    else some s

-- `slab[offset++] = b`; behind the end of the array it changes the offset only.
unfoldable pub store_byte : ℕ → Slab → Slab
unfolding store
store_byte b s = record s {
  cells = if ltb s.offset s.capacity then store s.offset (b ∷ []) s.cells else s.cells;
  offset = s.offset + 1;
}

unfoldable pub store_bytes : List ℕ → Slab → Slab
unfolding store_byte
store_bytes [] s = s
store_bytes (b ∷ bs) s = store_bytes bs (store_byte b s)

-- `slab.set(bytes, offset)` or `setFloat64(offset, …)`, which throw when the bytes do not fit behind
-- the offset; and the offset behind them.
unfoldable pub set_data : List ℕ → Slab → Option Slab
unfolding store
set_data bytes s =
    if ltb s.capacity (s.offset + length bytes)
    then none
    else some (record s { cells = store s.offset bytes s.cells; offset = s.offset + length bytes })

-- `ensure(size)`, the bytes that are written then, and the data behind them where there are any.
unfoldable pub put : ℕ → List ℕ → Option (List ℕ) → Slab → Option Slab
unfolding ensure store_bytes set_data
put size head none s = elim (ensure size s) [
  | none ↦ none
  | some grown ↦ some (store_bytes head grown)
]
put size head (some block) s = elim (ensure size s) [
  | none ↦ none
  | some grown ↦ set_data block (store_bytes head grown)
]

-- `slab.slice(0, offset)`
unfoldable pub slice : Slab → List ℕ
unfolding store
slice s =
    take (if ltb s.capacity s.offset then s.capacity else s.offset) (store s.offset [] s.cells)

abbrev pub then_write : Option Slab → (Slab → Option Slab) → Option Slab
then_write none k = none
then_write (some s) k = k s

-- Four bytes, the lowest first; `checkBound(4)`.
unfoldable pub read_word : List ℕ → Result (ℕ × List ℕ)
read_word (a ∷ b ∷ c ∷ d ∷ rest) = ok (a + b * 256 + c * 65536 + d * 16777216, rest)
read_word _ = violation

-- `checkBound(n)` and n bytes.
unfoldable pub read_bytes : ℕ → List ℕ → Result (List ℕ × List ℕ)
read_bytes n bs = if leb n (length bs) then ok (take n bs, drop n bs) else violation

-- A length that the decoder accepts.
unfoldable pub read_length : ℕ → List ℕ → Result (ℕ × List ℕ)
unfolding read_word
read_length most bs =
    bind (read_word bs) λ (n, rest). if ltb most n then violation else ok (n, rest)

abbrev pub max_string : ℕ
max_string = 16 * 1024 * 1024

abbrev pub max_items : ℕ
max_items = 1000000

module _ (p : Platform) where
  -- `unsupported` is a bigint, a symbol or a function. The message of an error is a text.
  mutual
    pub data Value : Type 0 where
      null undefined unsupported : Value
      bool : Bool → Value
      number : p.Double → Value
      string : p.Text → Value
      date : p.Double → Value
      error : p.Text → Value
      buffer : List ℕ → Value
      array : Items → Value
      object : Fields → Value

    pub data Items : Type 0 where
      no_items : Items
      item : Value → Items → Items

    pub data Fields : Type 0 where
      no_fields : Fields
      field : p.Text → Value → Fields → Fields

  abbrev pub count_items : Items → ℕ
  count_items no_items = 0
  count_items (item v xs) = suc (count_items xs)

  abbrev pub count_fields : Fields → ℕ
  count_fields no_fields = 0
  count_fields (field k v fs) = suc (count_fields fs)
