-- ===== src/Rpc/Codec/Encode.antt =====
-- `encode` of codec.ts: the writer with its slab, which is copied when it grows.
use pureq.Rpc.{Platform}
use pureq.Prelude.{
  ℕ, ◌+◌, ◌<◌, ◌≡◌, ◌⊎◌, refl, ap, inl, inr, Option, none, some, List, [], ◌∷◌, ◌++◌, if◌then◌else◌,
  length, arith,
}
use pureq.Rpc.Codec.{
  null_tag, bool_tag, int_tag, float_tag, string_tag, date_tag, object_tag, array_tag, buffer_tag,
  error_tag, type_id, word_bytes, Value, Items, Fields, null, undefined, unsupported, bool, number,
  string, date, error, buffer, array, object, no_items, item, no_fields, field, count_items,
  count_fields, Slab, put, slice, then_write,
}
use pureq.Rpc.Codec.Growing.{
  half_slab, put-Writes, nothing-Writes, then_write-Writes, slice-full, Writes,
}
use pureq.Rpc.Codec.Bytes.{
  text_bytes, int_or_float_bytes, number_bytes, bytes, item_bytes, field_bytes,
}

module _ (p : Platform) where
  unfoldable pub write_text : p.Text → Slab → Option Slab
  unfolding put
  write_text t s =
      let b = p.utf8 t in put (5 + length b) (type_id string_tag ∷ word_bytes (length b)) (some b) s

  unfoldable pub write_int_or_float : p.Double → Option ℕ → Slab → Option Slab
  unfolding put
  write_int_or_float d (some w) s = put 5 (type_id int_tag ∷ word_bytes w) none s
  write_int_or_float d none s = put 9 (type_id float_tag ∷ []) (some (p.set_float64 d)) s

  unfoldable pub write_number : p.Double → Slab → Option Slab
  unfolding write_int_or_float
  write_number d s = write_int_or_float d (p.as_int32 d) s

  unfoldable mutual
    unfolding put write_text write_number

    pub write : Value p → Slab → Option Slab
    write null s = put 1 (type_id null_tag ∷ []) none s
    write undefined s = put 1 (type_id null_tag ∷ []) none s
    write unsupported s = some s
    write (bool b) s = put 2 (type_id bool_tag ∷ (if b then 1 else 0) ∷ []) none s
    write (number d) s = write_number d s
    write (string t) s = write_text t s
    write (date d) s = put 9 (type_id date_tag ∷ []) (some (p.set_float64 d)) s
    write (error t) s = then_write (put 1 (type_id error_tag ∷ []) none s) (write_text t)
    write (buffer b) s = put (5 + length b) (type_id buffer_tag ∷ word_bytes (length b)) (some b) s
    write (array xs) s =
        then_write (put 5 (type_id array_tag ∷ word_bytes (count_items p xs)) none s)
          (write_items xs)
    write (object fs) s =
        then_write (put 5 (type_id object_tag ∷ word_bytes (count_fields p fs)) none s)
          (write_fields fs)

    pub write_items : Items p → Slab → Option Slab
    write_items no_items s = some s
    write_items (item v xs) s = then_write (write v s) (write_items xs)

    pub write_fields : Fields p → Slab → Option Slab
    write_fields no_fields s = some s
    write_fields (field k v fs) s =
        then_write (write_text k s) (λ s1. then_write (write v s1) (write_fields fs))

  -- `none` for the length of the slab is the default.
  unfoldable pub encode : Option ℕ → Value p → Option (List ℕ)
  unfolding write slice
  encode slab_length v =
      elim (write v (record {
        capacity = elim slab_length [ none ↦ 4096 | some n ↦ n ];
        cells = [];
        offset = 0;
      })) [ none ↦ none | some s ↦ some (slice s) ]

module _ (p : Platform) where
  write_text-Writes : (t : p.Text) → Writes (text_bytes p t) (write_text p t)
  unfolding write_text
  write_text-Writes t =
      put-Writes (5 + length (p.utf8 t)) (type_id string_tag ∷ word_bytes (length (p.utf8 t)))
        (some (p.utf8 t)) (omega arith)

  write_int_or_float-Writes :
      (d : p.Double) (o : Option ℕ) → Writes (int_or_float_bytes p d o) (write_int_or_float p d o)
  unfolding write_int_or_float
  write_int_or_float-Writes d (some w) = put-Writes 5 (type_id int_tag ∷ word_bytes w) none refl
  write_int_or_float-Writes d none =
      put-Writes 9 (type_id float_tag ∷ []) (some (p.set_float64 d))
        (omega (arith, p.length-set_float64 d))

  write_number-Writes : (d : p.Double) → Writes (number_bytes p d) (write_number p d)
  unfolding write_number
  write_number-Writes d = write_int_or_float-Writes d (p.as_int32 d)

  mutual
    unfolding write bytes

    write-Writes : (v : Value p) → Writes (bytes p v) (write p v)
    write-Writes null = put-Writes 1 (type_id null_tag ∷ []) none refl
    write-Writes undefined = put-Writes 1 (type_id null_tag ∷ []) none refl
    write-Writes unsupported = nothing-Writes
    write-Writes (bool b) = put-Writes 2 (type_id bool_tag ∷ (if b then 1 else 0) ∷ []) none refl
    write-Writes (number d) = write_number-Writes d
    write-Writes (string t) = write_text-Writes t
    write-Writes (date d) =
        put-Writes 9 (type_id date_tag ∷ []) (some (p.set_float64 d))
          (omega (arith, p.length-set_float64 d))
    write-Writes (error t) =
        then_write-Writes (type_id error_tag ∷ []) (text_bytes p t)
          (put 1 (type_id error_tag ∷ []) none) (write_text p t)
          (put-Writes 1 (type_id error_tag ∷ []) none refl) (write_text-Writes t)
    write-Writes (buffer b) =
        put-Writes (5 + length b) (type_id buffer_tag ∷ word_bytes (length b)) (some b)
          (omega arith)
    write-Writes (array xs) =
        then_write-Writes (type_id array_tag ∷ word_bytes (count_items p xs)) (item_bytes p xs)
          (put 5 (type_id array_tag ∷ word_bytes (count_items p xs)) none) (write_items p xs)
          (put-Writes 5 (type_id array_tag ∷ word_bytes (count_items p xs)) none refl)
          (write_items-Writes xs)
    write-Writes (object fs) =
        then_write-Writes (type_id object_tag ∷ word_bytes (count_fields p fs)) (field_bytes p fs)
          (put 5 (type_id object_tag ∷ word_bytes (count_fields p fs)) none) (write_fields p fs)
          (put-Writes 5 (type_id object_tag ∷ word_bytes (count_fields p fs)) none refl)
          (write_fields-Writes fs)

    write_items-Writes : (xs : Items p) → Writes (item_bytes p xs) (write_items p xs)
    write_items-Writes no_items = nothing-Writes
    write_items-Writes (item v xs) =
        then_write-Writes (bytes p v) (item_bytes p xs) (write p v) (write_items p xs)
          (write-Writes v) (write_items-Writes xs)

    write_fields-Writes : (fs : Fields p) → Writes (field_bytes p fs) (write_fields p fs)
    write_fields-Writes no_fields = nothing-Writes
    write_fields-Writes (field k v fs) =
        then_write-Writes (text_bytes p k) (bytes p v ++ field_bytes p fs) (write_text p k)
          (λ s1. then_write (write p v s1) (write_fields p fs)) (write_text-Writes k)
          (then_write-Writes (bytes p v) (field_bytes p fs) (write p v) (write_fields p fs)
            (write-Writes v) (write_fields-Writes fs))

  -- Whatever its slab, the encoder gives the bytes of the format, or refuses a value, and it refuses
  -- none whose bytes fit into half of the largest slab.
  pub encode_lem :
      (slab : Option ℕ) (v : Value p)
      → (encode p slab v ≡ some (bytes p v))
        ⊎ ((encode p slab v ≡ none) × (half_slab < length (bytes p v)))
  unfolding encode
  encode_lem slab v =
      elim (write-Writes v (elim slab [ none ↦ 4096 | some n ↦ n ]) [] (omega arith)) [
        | inl (m, fits, e) ↦ inl (rw (encode, e) (ap some (slice-full m (bytes p v) fits)))
        | inr (e, big) ↦ inr (rw (encode, e) refl, omega (arith, big))
      ]
