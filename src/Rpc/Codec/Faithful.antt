-- ===== src/Rpc/Codec/Faithful.antt =====
-- Which values come through codec.ts unchanged.
use pureq.Rpc.{Platform}
use pureq.Prelude.{ℕ, ◌≡◌, refl, sym, ap, ◌∙◌, false, Option, none, some, List}
use pureq.Rpc.Codec.{
  Value, Items, Fields, null, undefined, unsupported, bool, number, string, date, error, buffer,
  array, object, no_items, item, no_fields, field,
}
use pureq.Rpc.Codec.Decode.{set_field, assign}
use pureq.Rpc.Codec.Received.{received_number, received, received_items, received_fields}

module _ (p : Platform) (text_of : Value p → p.Text) where
  abbrev pub PlainText : p.Text → Type 0
  PlainText t = p.is_altered t ≡ false

  abbrev pub Absent : p.Text → Fields p → Type 0
  Absent k no_fields = Unit
  Absent k (field j v fs) = (p.same_text.same j k ≡ false) × Absent k fs

  abbrev pub append_field : Fields p → p.Text → Value p → Fields p
  append_field no_fields k v = field k v no_fields
  append_field (field j w fs) k v = field j w (append_field fs k v)

  abbrev append_fields : Fields p → Fields p → Fields p
  append_fields no_fields gs = gs
  append_fields (field j w fs) gs = field j w (append_fields fs gs)

  -- Not -0, no byte order mark, no `undefined`, and for an object no key that comes twice (`seen`
  -- are the fields in front) or is `__proto__`.
  unfoldable mutual
    pub Plain : Value p → Type 0
    Plain null = Unit
    Plain undefined = ⊥
    Plain unsupported = ⊥
    Plain (bool b) = Unit
    Plain (number d) = p.is_negative_zero d ≡ false
    Plain (string t) = PlainText t
    Plain (date d) = Unit
    Plain (error t) = PlainText t
    Plain (buffer b) = Unit
    Plain (array xs) = PlainItems xs
    Plain (object fs) = PlainFields no_fields fs

    pub PlainItems : Items p → Type 0
    PlainItems no_items = Unit
    PlainItems (item v xs) = Plain v × PlainItems xs

    pub PlainFields : Fields p → Fields p → Type 0
    PlainFields seen no_fields = Unit
    PlainFields seen (field k v fs) =
        PlainText k
        × (p.same_text.same k p.proto ≡ false)
        × Absent k seen
        × Plain v
        × PlainFields (append_field seen k v) fs

  received_number_self :
      (d : p.Double) (o : Option ℕ)
      → p.as_int32 d ≡ o
      → p.is_negative_zero d ≡ false
      → received_number p text_of d o ≡ d
  received_number_self d (some w) e z = p.of_int32-as_int32 d w e z
  received_number_self d none e z = refl

  set_field-Absent :
      (k : p.Text) (v : Value p) (fs : Fields p)
      → Absent k fs
      → set_field p text_of k v fs ≡ append_field fs k v
  unfolding set_field
  set_field-Absent k v no_fields h = refl
  set_field-Absent k v (field j w fs) h = rw h.0 (ap (field j w) (set_field-Absent k v fs h.1))

  assign-Absent :
      (k : p.Text) (v : Value p) (fs : Fields p)
      → p.same_text.same k p.proto ≡ false
      → Absent k fs
      → assign p text_of k v fs ≡ append_field fs k v
  unfolding assign
  assign-Absent k v fs e h = rw e (set_field-Absent k v fs h)

  append-no_fields : (fs : Fields p) → append_fields fs no_fields ≡ fs
  append-no_fields no_fields = refl
  append-no_fields (field j w fs) = ap (field j w) (append-no_fields fs)

  append-append_field :
      (fs gs : Fields p) (k : p.Text) (v : Value p)
      → append_fields (append_field fs k v) gs ≡ append_fields fs (field k v gs)
  append-append_field no_fields gs k v = refl
  append-append_field (field j w fs) gs k v = ap (field j w) (append-append_field fs gs k v)

  mutual
    unfolding received Plain

    received_self : (v : Value p) → Plain v → received p text_of v ≡ v
    received_self null h = refl
    received_self undefined h = absurd h
    received_self unsupported h = absurd h
    received_self (bool b) h = refl
    received_self (number d) h = ap number (received_number_self d (p.as_int32 d) refl h)
    received_self (string t) h = ap string (p.from_utf8-utf8 t h)
    received_self (date d) h = refl
    received_self (error t) h = ap error (p.from_utf8-utf8 t h)
    received_self (buffer b) h = refl
    received_self (array xs) h = ap array (received_items_self xs h)
    received_self (object fs) h = ap object (received_fields-append fs no_fields h)

    received_items_self : (xs : Items p) → PlainItems xs → received_items p text_of xs ≡ xs
    received_items_self no_items h = refl
    received_items_self (item v xs) h =
        let first = received_self v h.0 in let others = received_items_self xs h.1 in cc

    received_fields-append :
        (fs seen : Fields p)
        → PlainFields seen fs
        → received_fields p text_of fs seen ≡ append_fields seen fs
    received_fields-append no_fields seen h = sym (append-no_fields seen)
    received_fields-append (field k v fs) seen h =
        ap (λ j. received_fields p text_of fs (assign p text_of j (received p text_of v) seen))
          (p.from_utf8-utf8 k h.0)
        ∙ ap (λ w. received_fields p text_of fs (assign p text_of k w seen)) (received_self v h.3)
        ∙ ap (received_fields p text_of fs) (assign-Absent k v seen h.1 h.2)
        ∙ received_fields-append fs (append_field seen k v) h.4
        ∙ append-append_field seen fs k v

  pub received_lem : (v : Value p) → Plain v → received p text_of v ≡ v
  received_lem v h = received_self v h
