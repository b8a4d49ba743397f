-- ===== src/Rpc/Codec/RoundTrip.antt =====
-- What `decode` of codec.ts makes of the bytes that `encode` wrote.
use mathlib.Core.List.{append_assoc}
use pureq.Rpc.{Platform}
use pureq.Prelude.{
  ℕ, zero, suc, ◌+◌, ◌*◌, ◌/◌, ◌%◌, ◌^◌, ◌≤◌, ◌<◌, ◌≡◌, refl, sym, ap, ◌∙◌, true, false, Option,
  none, some, List, ◌++◌, ltb, leb, le→not_ltb, if◌then◌else◌, length, length-append, take, drop,
  take-append_length, drop-append_length, arith,
}
use pureq.Rpc.Codec.{
  tag_of, word_bytes, Result, ok, bind, read_word, read_bytes, read_length, max_string, max_items,
  Value, Items, Fields, null, undefined, unsupported, bool, number, string, date, error, buffer,
  array, object, no_items, item, no_fields, field, count_items, count_fields,
}
use pureq.Rpc.Codec.Bytes.{text_bytes, int_or_float_bytes, bytes, item_bytes, field_bytes}
use pureq.Rpc.Codec.Decode.{
  assign, key_text, read_bool, read_int, read_double, read_text, read_buffer, read_tagged, read,
  read_items, read_fields, decode,
}
use pureq.Rpc.Codec.Received.{
  received_text, received_number, received, received_items, received_fields, ShortText, Sendable,
  SendableItems, SendableFields,
}

read_word-bytes :
    (w : ℕ) (rest : List ℕ) → w < 2 ^ 32 → read_word (word_bytes w ++ rest) ≡ ok (w, rest)
unfolding read_word
read_word-bytes w rest h =
    let whole : w % 256
          + w / 256 % 256 * 256
          + w / 65536 % 256 * 65536
          + w / 16777216 % 256 * 16777216
        ≡ w =
      omega arith in
    ap (λ n. ok (n, rest)) whole

read_length-bytes :
    (most n : ℕ) (rest : List ℕ)
    → n ≤ most
    → most < 2 ^ 32
    → read_length most (word_bytes n ++ rest) ≡ ok (n, rest)
unfolding read_length
read_length-bytes most n rest h k =
    ap (λ r. bind r λ (n, rest). if ltb most n then Result.violation else ok (n, rest))
      (read_word-bytes n rest (omega arith))
    ∙ rw (le→not_ltb most n h) refl

read_bytes-append :
    (n : ℕ) (b rest : List ℕ) → n ≡ length b → read_bytes n (b ++ rest) ≡ ok (b, rest)
unfolding read_bytes
read_bytes-append n b rest e =
    let size = length-append b rest in
    let fits : leb n (length (b ++ rest)) ≡ true = ground arith in
    let first : take n (b ++ rest) ≡ b = rw e (take-append_length b rest) in
    let others : drop n (b ++ rest) ≡ rest = rw e (drop-append_length b rest) in
    rw fits (rw (first, others) refl)

module _ (p : Platform) (text_of : Value p → p.Text) where
  read_text-bytes :
      (t : p.Text) (rest : List ℕ)
      → ShortText p text_of t
      → read_text p text_of (word_bytes (length (p.utf8 t)) ++ (p.utf8 t ++ rest))
        ≡ ok (string (received_text p text_of t), rest)
  unfolding read_text
  read_text-bytes t rest h =
      rw (read_length-bytes max_string (length (p.utf8 t)) (p.utf8 t ++ rest) h (omega arith))
        (rw (read_bytes-append (length (p.utf8 t)) (p.utf8 t) rest refl) refl)

  read_buffer-bytes :
      (b rest : List ℕ)
      → length b < 2 ^ 32
      → read_buffer p text_of (word_bytes (length b) ++ (b ++ rest)) ≡ ok (buffer b, rest)
  unfolding read_buffer
  read_buffer-bytes b rest h =
      ap (λ r. bind r λ (n, rest'). bind (read_bytes n rest') λ (c, rest''). ok (buffer c, rest''))
        (read_word-bytes (length b) (b ++ rest) h)
      ∙ rw (read_bytes-append (length b) b rest refl) refl

  read_double-bytes :
      (d : p.Double) (rest : List ℕ)
      → read_double p text_of (p.set_float64 d ++ rest) ≡ ok (d, rest)
  unfolding read_double
  read_double-bytes d rest =
      rw (read_bytes-append 8 (p.set_float64 d) rest (sym (p.length-set_float64 d)))
        (ap (λ x. ok (x, rest)) (p.get_float64-set_float64 d))

  read_int-bytes :
      (w : ℕ) (rest : List ℕ)
      → w < 2 ^ 32
      → read_int p text_of (word_bytes w ++ rest) ≡ ok (number (p.of_int32 w), rest)
  unfolding read_int
  read_int-bytes w rest h =
      ap (λ r. bind r λ (n, rest'). ok (number (p.of_int32 n), rest')) (read_word-bytes w rest h)

  -- With fuel above `bound`, the reader takes the value off the front of any input.
  abbrev Reads : {A : Type 0} → (ℕ → List ℕ → Result (A × List ℕ)) → ℕ → List ℕ → A → Type 0
  Reads r bound chunk a = (f : ℕ) (rest : List ℕ) → bound < f → r f (chunk ++ rest) ≡ ok (a, rest)

  read_number-bytes :
      (d : p.Double) (o : Option ℕ) (f : ℕ) (rest : List ℕ)
      → p.as_int32 d ≡ o
      → read p text_of (suc f) (int_or_float_bytes p d o ++ rest)
        ≡ ok (number (received_number p text_of d o), rest)
  unfolding read read_tagged tag_of
  read_number-bytes d (some w) f rest e = read_int-bytes w rest (p.as_int32-lt d w e)
  read_number-bytes d none f rest e = rw (read_double-bytes d rest) refl

  read-text_bytes :
      (t : p.Text) (f : ℕ) (rest : List ℕ)
      → ShortText p text_of t
      → 0 < f
      → read p text_of f (text_bytes p t ++ rest) ≡ ok (string (received_text p text_of t), rest)
  unfolding read read_tagged tag_of
  read-text_bytes t zero rest s h = absurd (omega arith)
  read-text_bytes t (suc f) rest s h = read_text-bytes t rest s

  length-bytes_pos : (v : Value p) → Sendable p text_of v → 0 < length (bytes p v)
  unfolding bytes Sendable
  length-bytes_pos unsupported s = absurd s
  length-bytes_pos (number d) s =
      elim (p.as_int32 d) as (λ o. 0 < length (int_or_float_bytes p d o)) [
        | some w ↦ omega arith
        | none ↦ omega arith
      ]
  length-bytes_pos (bool b) s = omega arith
  length-bytes_pos _ s = omega arith

  mutual
    unfolding read read_tagged tag_of read_bool bytes received Sendable

    read-bytes :
        (v : Value p)
        → Sendable p text_of v
        → Reads (read p text_of) (2 * length (bytes p v)) (bytes p v) (received p text_of v)
    read-bytes v s zero rest h = absurd (omega arith)
    read-bytes null s (suc f) rest h = refl
    read-bytes undefined s (suc f) rest h = refl
    read-bytes unsupported s (suc f) rest h = absurd s
    read-bytes (bool true) s (suc f) rest h = refl
    read-bytes (bool false) s (suc f) rest h = refl
    read-bytes (number d) s (suc f) rest h = read_number-bytes d (p.as_int32 d) f rest refl
    read-bytes (string t) s (suc f) rest h = read_text-bytes t rest s
    read-bytes (date d) s (suc f) rest h =
        ap (λ r. bind r λ (d, rest'). ok (date d, rest')) (read_double-bytes d rest)
    read-bytes (error t) s (suc zero) rest h = absurd (omega arith)
    read-bytes (error t) s (suc (suc f)) rest h =
        ap (λ r. bind r λ (v, rest'). ok (error (key_text p text_of v), rest'))
          (read_text-bytes t rest s)
    read-bytes (buffer b) s (suc f) rest h = read_buffer-bytes b rest s
    read-bytes (array xs) s (suc f) rest h =
        ap
          (λ r. bind r λ (n, rest').
            bind (read_items p text_of f n rest') λ (ys, rest''). ok (array ys, rest''))
          (read_length-bytes max_items (count_items p xs) (item_bytes p xs ++ rest) s.0
            (omega arith))
        ∙ ap (λ r. bind r λ (ys, rest''). ok (array ys, rest''))
            (read_items-bytes xs s.1 f rest (omega arith))
    read-bytes (object fs) s (suc f) rest h =
        ap
          (λ r. bind r λ (n, rest').
            bind (read_fields p text_of f n no_fields rest') λ (ys, rest''). ok (object ys, rest''))
          (read_length-bytes max_items (count_fields p fs) (field_bytes p fs ++ rest) s.0
            (omega arith))
        ∙ ap (λ r. bind r λ (ys, rest''). ok (object ys, rest''))
            (read_fields-bytes fs no_fields s.1 f rest (omega arith))

    read_items-bytes :
        (xs : Items p)
        → SendableItems p text_of xs
        → Reads
            (λ f. read_items p text_of f (count_items p xs))
            (2 * length (item_bytes p xs) + 1)
            (item_bytes p xs)
            (received_items p text_of xs)
    read_items-bytes xs s zero rest h = absurd (omega arith)
    read_items-bytes no_items s (suc f) rest h = refl
    read_items-bytes (item v xs) s (suc f) rest h =
        let others = item_bytes p xs ++ rest in
        let size = length-append (bytes p v) (item_bytes p xs) in
        let some_byte = length-bytes_pos v s.0 in
        ap
          (λ l. bind (read p text_of f l) λ (w, rest').
            bind (read_items p text_of f (count_items p xs) rest')
              λ (ys, rest''). ok (item w ys, rest''))
          (append_assoc (bytes p v) (item_bytes p xs) rest)
        ∙ ap
            (λ r. bind r λ (w, rest').
              bind (read_items p text_of f (count_items p xs) rest')
                λ (ys, rest''). ok (item w ys, rest''))
            (read-bytes v s.0 f others (omega arith))
        ∙ ap (λ r. bind r λ (ys, rest''). ok (item (received p text_of v) ys, rest''))
            (read_items-bytes xs s.1 f rest (omega arith))

    read_fields-bytes :
        (fs : Fields p) (obj : Fields p)
        → SendableFields p text_of fs
        → Reads
            (λ f. read_fields p text_of f (count_fields p fs) obj)
            (2 * length (field_bytes p fs) + 1)
            (field_bytes p fs)
            (received_fields p text_of fs obj)
    read_fields-bytes fs obj s zero rest h = absurd (omega arith)
    read_fields-bytes no_fields obj s (suc f) rest h = refl
    read_fields-bytes (field k v fs) obj s (suc f) rest h =
        let behind = bytes p v ++ field_bytes p fs in
        let sizes = length-append (bytes p v) (field_bytes p fs) in
        let size = length-append (text_bytes p k) behind in
        let go : p.Text → Value p → List ℕ → Result (Fields p × List ℕ) =
          λ j w l. read_fields p text_of f (count_fields p fs) (assign p text_of j w obj) l in
        ap
          (λ l. bind (read p text_of f l) λ (j, rest').
            bind (read p text_of f rest') λ (w, rest''). go (key_text p text_of j) w rest'')
          (append_assoc (text_bytes p k) behind rest)
        ∙ ap
            (λ r. bind r λ (j, rest').
              bind (read p text_of f rest') λ (w, rest''). go (key_text p text_of j) w rest'')
            (read-text_bytes k f (behind ++ rest) s.0 (omega arith))
        ∙ ap (λ l. bind (read p text_of f l) λ (w, rest''). go (received_text p text_of k) w rest'')
            (append_assoc (bytes p v) (field_bytes p fs) rest)
        ∙ ap (λ r. bind r λ (w, rest''). go (received_text p text_of k) w rest'')
            (read-bytes v s.1 f (field_bytes p fs ++ rest) (omega arith))
        ∙ read_fields-bytes fs
            (assign p text_of (received_text p text_of k) (received p text_of v) obj) s.2 f rest
            (omega arith)

  -- Whatever stands behind them, the bytes of a value that has no bigint, symbol or function in it,
  -- and keeps within the limits of the decoder, are read as what arrives of it.
  pub decode-bytes :
      (v : Value p) (rest : List ℕ)
      → Sendable p text_of v
      → decode p text_of (bytes p v ++ rest) ≡ ok (received p text_of v)
  unfolding decode
  decode-bytes v rest s =
      let size = length-append (bytes p v) rest in
      ap (λ r. bind r λ (w, rest'). ok w)
        (read-bytes v s (2 * length (bytes p v ++ rest) + 1) rest (omega arith))
