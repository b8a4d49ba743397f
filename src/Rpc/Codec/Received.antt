-- ===== src/Rpc/Codec/Received.antt =====
-- What arrives of a value that codec.ts encodes and decodes, and which values it can send.
use pureq.Rpc.{Platform}
use pureq.Prelude.{ℕ, ◌^◌, ◌≤◌, ◌<◌, Option, none, some, length}
use pureq.Rpc.Codec.{
  max_string, max_items, Value, Items, Fields, null, undefined, unsupported, bool, number, string,
  date, error, buffer, array, object, no_items, item, no_fields, field, count_items, count_fields,
}
use pureq.Rpc.Codec.Decode.{assign}

module _ (p : Platform) (text_of : Value p → p.Text) where
  -- a text, and a number, after the way through the bytes
  abbrev pub received_text : p.Text → p.Text
  received_text t = p.from_utf8 (p.utf8 t)

  abbrev pub received_number : p.Double → Option ℕ → p.Double
  received_number d (some w) = p.of_int32 w
  received_number d none = d

  -- What arrives of a value.
  unfoldable mutual
    pub received : Value p → Value p
    received null = null
    received undefined = null
    received unsupported = unsupported
    received (bool b) = bool b
    received (number d) = number (received_number d (p.as_int32 d))
    received (string t) = string (received_text t)
    received (date d) = date d
    received (error t) = error (received_text t)
    received (buffer b) = buffer b
    received (array xs) = array (received_items xs)
    received (object fs) = object (received_fields fs no_fields)

    pub received_items : Items p → Items p
    received_items no_items = no_items
    received_items (item v xs) = item (received v) (received_items xs)

    pub received_fields : Fields p → Fields p → Fields p
    received_fields no_fields obj = obj
    received_fields (field k v fs) obj =
        received_fields fs (assign p text_of (received_text k) (received v) obj)

  abbrev pub ShortText : p.Text → Type 0
  ShortText t = length (p.utf8 t) ≤ max_string

  -- no bigint, symbol or function in it, and each length within the decoder's limits
  unfoldable mutual
    pub Sendable : Value p → Type 0
    Sendable null = Unit
    Sendable undefined = Unit
    Sendable unsupported = ⊥
    Sendable (bool b) = Unit
    Sendable (number d) = Unit
    Sendable (string t) = ShortText t
    Sendable (date d) = Unit
    Sendable (error t) = ShortText t
    Sendable (buffer b) = length b < 2 ^ 32
    Sendable (array xs) = (count_items p xs ≤ max_items) × SendableItems xs
    Sendable (object fs) = (count_fields p fs ≤ max_items) × SendableFields fs

    pub SendableItems : Items p → Type 0
    SendableItems no_items = Unit
    SendableItems (item v xs) = Sendable v × SendableItems xs

    pub SendableFields : Fields p → Type 0
    SendableFields no_fields = Unit
    SendableFields (field k v fs) = ShortText k × Sendable v × SendableFields fs
