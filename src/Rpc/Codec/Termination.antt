-- ===== src/Rpc/Codec/Termination.antt =====
-- `decode` ends on every input.
use pureq.Rpc.{Platform}
use pureq.Prelude.{
  ℕ, zero, suc, ◌+◌, ◌*◌, ◌≤◌, ◌<◌, ◌≢◌, true, false, Option, none, some, List, [], ◌∷◌, ltb, leb,
  number_key, if◌then◌else◌, length, length-drop, take, drop, arith,
}
use pureq.Rpc.Codec.{
  Tag, null_tag, bool_tag, int_tag, float_tag, string_tag, date_tag, object_tag, array_tag,
  buffer_tag, error_tag, tag_of, Result, ok, violation, out_of_fuel, bind, read_word, read_bytes,
  read_length, max_string, max_items, Value, Items, Fields, no_fields,
}
use pureq.Rpc.Codec.Decode.{
  read_bool, read_int, read_double, read_text, read_buffer, read_tagged, read, read_items,
  read_fields, decode,
}

-- A run ends with an answer and less than n bytes left, or is refused.
abbrev pub Ends {ℓ} : {A : Type ℓ} → ℕ → Result (A × List ℕ) → Type 0
Ends n (ok (a, rest)) = length rest < n
Ends n violation = Unit
Ends n out_of_fuel = ⊥

bind-Ends {ℓ κ} :
    {A : Type ℓ} {B : Type κ} (m n : ℕ) (r : Result (A × List ℕ))
    (f : A × List ℕ → Result (B × List ℕ))
    → Ends m r
    → ((a : A) (rest : List ℕ) → length rest < m → Ends n (f (a, rest)))
    → Ends n (bind r f)
bind-Ends m n (ok (a, rest)) f h k = k a rest h
bind-Ends m n violation f h k = tt
bind-Ends m n out_of_fuel f h k = h

first-ne-out_of_fuel {ℓ} :
    {A : Type ℓ} (n : ℕ) (r : Result (A × List ℕ))
    → Ends n r
    → bind r (λ (a, rest). ok a) ≢ out_of_fuel
first-ne-out_of_fuel n (ok (a, rest)) h = cc
first-ne-out_of_fuel n violation h = cc
first-ne-out_of_fuel n out_of_fuel h = absurd h

Ends-weaken {ℓ} : {A : Type ℓ} (m n : ℕ) (r : Result (A × List ℕ)) → m ≤ n → Ends m r → Ends n r
Ends-weaken m n (ok (a, rest)) h k = omega arith
Ends-weaken m n violation h k = tt
Ends-weaken m n out_of_fuel h k = k

read_word-Ends : (bs : List ℕ) → Ends (suc (length bs)) (read_word bs)
unfolding read_word
read_word-Ends [] = tt
read_word-Ends (a ∷ []) = tt
read_word-Ends (a ∷ b ∷ []) = tt
read_word-Ends (a ∷ b ∷ c ∷ []) = tt
read_word-Ends (a ∷ b ∷ c ∷ d ∷ bs) = omega arith

read_bytes-Ends : (n : ℕ) (bs : List ℕ) → Ends (suc (length bs)) (read_bytes n bs)
unfolding read_bytes
read_bytes-Ends n bs =
    elim (leb n (length bs))
      as (λ b. Ends (suc (length bs)) (if b then ok (take n bs, drop n bs) else violation)) [
        | true ↦ omega (arith, length-drop n bs)
        | false ↦ tt
      ]

read_length-Ends : (most : ℕ) (bs : List ℕ) → Ends (suc (length bs)) (read_length most bs)
unfolding read_length
read_length-Ends most bs =
    bind-Ends (suc (length bs)) (suc (length bs)) (read_word bs) _ (read_word-Ends bs) λ n rest h.
      elim (ltb most n) as (λ b. Ends (suc (length bs)) (if b then violation else ok (n, rest))) [
        | true ↦ tt
        | false ↦ h
      ]

module _ (p : Platform) (text_of : Value p → p.Text) where
  read_double-Ends : (bs : List ℕ) → Ends (suc (length bs)) (read_double p text_of bs)
  unfolding read_double
  read_double-Ends bs =
      bind-Ends (suc (length bs)) (suc (length bs)) (read_bytes 8 bs) _ (read_bytes-Ends 8 bs)
        λ b rest h. h

  read_text-Ends : (bs : List ℕ) → Ends (suc (length bs)) (read_text p text_of bs)
  unfolding read_text
  read_text-Ends bs =
      bind-Ends (suc (length bs)) (suc (length bs)) (read_length max_string bs) _
        (read_length-Ends max_string bs)
        λ n rest h.
          bind-Ends (suc (length rest)) (suc (length bs)) (read_bytes n rest) _
            (read_bytes-Ends n rest) λ b rest' h'. omega arith

  read_tagged-Ends :
      (next : List ℕ → Result (Value p × List ℕ)) (items : ℕ → List ℕ → Result (Items p × List ℕ))
      (fields : ℕ → List ℕ → Result (Fields p × List ℕ)) (o : Option Tag) (bs : List ℕ)
      → Ends (length bs) (next bs)
      → ((n : ℕ) (rest : List ℕ)
          → length rest < suc (length bs)
          → Ends (suc (length rest)) (items n rest))
      → ((n : ℕ) (rest : List ℕ)
          → length rest < suc (length bs)
          → Ends (suc (length rest)) (fields n rest))
      → Ends (suc (length bs)) (read_tagged p text_of next items fields o bs)
  unfolding read_tagged read_bool read_int read_buffer
  read_tagged-Ends next items fields none bs hn hi hf = tt
  read_tagged-Ends next items fields (some null_tag) bs hn hi hf = omega arith
  read_tagged-Ends next items fields (some bool_tag) [] hn hi hf = tt
  read_tagged-Ends next items fields (some bool_tag) (b ∷ bs) hn hi hf = omega arith
  read_tagged-Ends next items fields (some int_tag) bs hn hi hf =
      bind-Ends (suc (length bs)) (suc (length bs)) (read_word bs) _ (read_word-Ends bs)
        λ w rest h. h
  read_tagged-Ends next items fields (some float_tag) bs hn hi hf =
      bind-Ends (suc (length bs)) (suc (length bs)) (read_double p text_of bs) _
        (read_double-Ends bs) λ w rest h. h
  read_tagged-Ends next items fields (some string_tag) bs hn hi hf = read_text-Ends bs
  read_tagged-Ends next items fields (some date_tag) bs hn hi hf =
      bind-Ends (suc (length bs)) (suc (length bs)) (read_double p text_of bs) _
        (read_double-Ends bs) λ w rest h. h
  read_tagged-Ends next items fields (some error_tag) bs hn hi hf =
      bind-Ends (length bs) (suc (length bs)) (next bs) _ hn λ v rest h. omega arith
  read_tagged-Ends next items fields (some array_tag) bs hn hi hf =
      bind-Ends (suc (length bs)) (suc (length bs)) (read_length max_items bs) _
        (read_length-Ends max_items bs)
        λ n rest h.
          bind-Ends (suc (length rest)) (suc (length bs)) (items n rest) _ (hi n rest h)
            λ xs rest' h'. omega arith
  read_tagged-Ends next items fields (some object_tag) bs hn hi hf =
      bind-Ends (suc (length bs)) (suc (length bs)) (read_length max_items bs) _
        (read_length-Ends max_items bs)
        λ n rest h.
          bind-Ends (suc (length rest)) (suc (length bs)) (fields n rest) _ (hf n rest h)
            λ xs rest' h'. omega arith
  read_tagged-Ends next items fields (some buffer_tag) bs hn hi hf =
      bind-Ends (suc (length bs)) (suc (length bs)) (read_word bs) _ (read_word-Ends bs) λ n rest h.
        bind-Ends (suc (length rest)) (suc (length bs)) (read_bytes n rest) _
          (read_bytes-Ends n rest) λ b rest' h'. omega arith

  mutual
    unfolding read

    read-Ends : (f : ℕ) (bs : List ℕ) → 2 * length bs < f → Ends (length bs) (read p text_of f bs)
    read-Ends zero bs h = absurd (omega arith)
    read-Ends (suc f) [] h = tt
    read-Ends (suc f) (t ∷ bs) h =
        read_tagged-Ends (read p text_of f) (read_items p text_of f)
          (λ n. read_fields p text_of f n no_fields) (tag_of t) bs (read-Ends f bs (omega arith))
          (λ n rest k. read_items-Ends f n rest (omega arith))
          (λ n rest k. read_fields-Ends f n no_fields rest (omega arith))

    read_items-Ends :
        (f n : ℕ) (bs : List ℕ)
        → 2 * length bs + 1 < f
        → Ends (suc (length bs)) (read_items p text_of f n bs)
    read_items-Ends zero n bs h = absurd (omega arith)
    read_items-Ends (suc f) zero bs h = omega arith
    read_items-Ends (suc f) (suc n) bs h =
        bind-Ends (length bs) (suc (length bs)) (read p text_of f bs) _
          (read-Ends f bs (omega arith))
          λ v rest k.
            bind-Ends (suc (length rest)) (suc (length bs)) (read_items p text_of f n rest) _
              (read_items-Ends f n rest (omega arith)) λ xs rest' k'. omega arith

    read_fields-Ends :
        (f n : ℕ) (obj : Fields p) (bs : List ℕ)
        → 2 * length bs + 1 < f
        → Ends (suc (length bs)) (read_fields p text_of f n obj bs)
    read_fields-Ends zero n obj bs h = absurd (omega arith)
    read_fields-Ends (suc f) zero obj bs h = omega arith
    read_fields-Ends (suc f) (suc n) obj bs h =
        bind-Ends (length bs) (suc (length bs)) (read p text_of f bs) _
          (read-Ends f bs (omega arith))
          λ v rest k.
            bind-Ends (length rest) (suc (length bs)) (read p text_of f rest) _
              (read-Ends f rest (omega arith))
              λ w rest' k'.
                Ends-weaken (suc (length rest')) (suc (length bs)) _ (omega arith)
                  (read_fields-Ends f n _ rest' (omega arith))

  -- On every input, hostile ones among them, the decoder ends with a value or with an error: its
  -- fuel is enough.
  pub decode-ne-out_of_fuel : (bs : List ℕ) → decode p text_of bs ≢ out_of_fuel
  unfolding decode
  decode-ne-out_of_fuel bs =
      first-ne-out_of_fuel (length bs) (read p text_of (2 * length bs + 1) bs)
        (read-Ends (2 * length bs + 1) bs (omega arith))
