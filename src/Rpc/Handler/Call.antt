-- ===== src/Rpc/Handler/Call.antt =====
-- A whole call: what the client of proxy.ts sends, the handler answers and the client takes from it.
use mathlib.Core.List.{append-nil}
use pureq.Rpc.{Platform}
use pureq.Rpc.Codec.{ok, Value, Fields, string, object, no_fields, field}
use pureq.Rpc.Codec.Bytes.{text_bytes, bytes, field_bytes}
use pureq.Rpc.Codec.Growing.{half_slab}
use pureq.Rpc.Codec.Encode.{encode, encode_lem}
use pureq.Rpc.Codec.Decode.{decode}
use pureq.Rpc.Codec.Received.{Sendable}
use pureq.Rpc.Codec.RoundTrip.{decode-bytes}
use pureq.Rpc.Codec.Faithful.{Plain, received_lem}
use pureq.Rpc.Handler.{
  Runtime, Server, binary, generate_request_signature, get_field, has_own, request_limit, slab_size,
  execute, verify, handle_query, handle_decoded, handle_request, request_of, receive,
}
use pureq.Rpc.Handler.Signature.{timing_safe_equal_iff}
use pureq.Prelude.{
  ℕ, ◌*◌, ◌≤◌, ◌≡◌, refl, sym, ap, ◌∙◌, true, Option, some, List, [], ◌++◌, le→not_ltb, length,
  length-append, min, inl, inr, arith,
}

module _ (p : Platform) (text_of : Value p → p.Text) where
  encode_within :
      (slab : Option ℕ) (v : Value p)
      → length (bytes p v) ≤ half_slab
      → encode p slab v ≡ some (bytes p v)
  encode_within slab v h = elim (encode_lem p slab v) [
    | inl e ↦ e
    | inr refused ↦ absurd (omega (arith, refused.1))
  ]

  decode-bytes_self :
      (v : Value p) → Sendable p text_of v → Plain p text_of v → decode p text_of (bytes p v) ≡ ok v
  decode-bytes_self v s h =
      ap (decode p text_of) (sym (append-nil (bytes p v)))
      ∙ decode-bytes p text_of v [] s
      ∙ ap ok (received_lem p text_of v h)

  length-field_bytes :
      (k : p.Text) (v : Value p) (fs : Fields p)
      → (length (bytes p v) ≤ length (field_bytes p (field k v fs)))
        × (length (field_bytes p fs) ≤ length (field_bytes p (field k v fs)))
  unfolding bytes
  length-field_bytes k v fs =
      let front = length-append (text_bytes p k) (bytes p v ++ field_bytes p fs) in
      let behind = length-append (bytes p v) (field_bytes p fs) in (omega arith, omega arith)

module _ {p : Platform} (r : Runtime p) (server : Server p) (secret id : p.Text) (v : Value p) where
  -- what the client sends
  abbrev pub request_object : Value p
  request_object = object (
      field r.query_id_name (string id) (
        field r.signature_name (string (generate_request_signature r secret id (bytes p v)))
          (field r.params_name v no_fields)))

  length-request_object : length (bytes p v) ≤ length (bytes p request_object)
  unfolding bytes
  length-request_object =
      let last = field r.params_name v no_fields in
      let signature = string (generate_request_signature r secret id (bytes p v)) in
      let others = field r.signature_name signature last in
      omega (
        arith,
        length-field_bytes p r.text_of r.params_name v no_fields,
        length-field_bytes p r.text_of r.signature_name signature last,
        length-field_bytes p r.text_of r.query_id_name (string id) others,
      )

  get_field-request_object :
      Plain p r.text_of request_object
      → (get_field r r.query_id_name request_object ≡ some (string id))
        × (get_field r r.signature_name request_object
            ≡ some (string (generate_request_signature r secret id (bytes p v))))
        × (get_field r r.params_name request_object ≡ some v)
  unfolding Plain
  get_field-request_object h =
      let same_query = (p.same_text.same_iff r.query_id_name r.query_id_name).1 refl in
      let same_signature = (p.same_text.same_iff r.signature_name r.signature_name).1 refl in
      let same_params = (p.same_text.same_iff r.params_name r.params_name).1 refl in
      (
        rw same_query refl,
        rw (h.4.2.0, same_signature) refl,
        rw (h.4.4.2.0, h.4.4.2.1.0, same_params) refl,
      )

  -- The client's request, decoded, and the way of the handler from there.
  module _ (f : Value p → Option (Value p)) (w : Value p) (procedure : server.procedure id ≡ some f)
      (result : f v ≡ some w) (listed : has_own r id server.manifest ≡ true)
      (short : length (bytes p v) ≤ half_slab) (short' : length (bytes p w) ≤ half_slab) where
    execute_listed : execute r server secret id v (some f) ≡ (binary (bytes p w), some (id, v))
    unfolding execute
    execute_listed =
        rw (result, encode_within p r.text_of (some (slab_size r server secret)) w short') refl

    verify_signed :
        verify r server secret id
          (string (generate_request_signature r secret id (bytes p v)))
          v
          (some (bytes p v))
        ≡ (binary (bytes p w), some (id, v))
    unfolding verify
    verify_signed =
        let units = r.units (generate_request_signature r secret id (bytes p v)) in
        rw ((timing_safe_equal_iff units units).1 refl, procedure) execute_listed

    handle_query_signed :
        (decoded : Value p)
        → get_field r r.signature_name decoded
          ≡ some (string (generate_request_signature r secret id (bytes p v)))
        → get_field r r.params_name decoded ≡ some v
        → handle_query r server secret decoded (some (string id))
          ≡ (binary (bytes p w), some (id, v))
    unfolding handle_query
    handle_query_signed decoded signature params =
        rw
          (
            listed,
            signature,
            params,
            encode_within p r.text_of (some (slab_size r server secret)) v short,
          )
          verify_signed

    handle_request-request_object :
        Plain p r.text_of request_object
        → Sendable p r.text_of request_object
        → length (bytes p request_object) ≤ request_limit r server secret
        → handle_request r server secret (length (bytes p request_object)) (bytes p request_object)
          ≡ (binary (bytes p w), some (id, v))
    unfolding handle_request handle_decoded
    handle_request-request_object plain sendable fits =
        let message = request_object in
        let fields = get_field-request_object plain in
        rw (le→not_ltb (request_limit r server secret) (length (bytes p message)) fits) (
          ap (handle_decoded r server secret) (decode-bytes_self p r.text_of message sendable plain)
          ∙ ap (handle_query r server secret message) fields.0
          ∙ handle_query_signed message fields.1 fields.2)

  -- A client that shares the secret gets the procedure's answer, and the procedure the client's
  -- input, when the procedure is listed and answers, the names of the request's fields differ, both
  -- values come through the codec unchanged (so no text in them has a lone surrogate or a leading byte
  -- order mark), and the sizes are within the limits.
  pub call_lem :
      (f : Value p → Option (Value p)) (w : Value p)
      → server.procedure id ≡ some f
      → f v ≡ some w
      → has_own r id server.manifest ≡ true
      → Plain p r.text_of request_object
      → Sendable p r.text_of request_object
      → length (bytes p request_object) ≤ min half_slab (request_limit r server secret)
      → Plain p r.text_of w
      → Sendable p r.text_of w
      → length (bytes p w) ≤ half_slab
      → (body : List ℕ) × (request_of r secret id v ≡ some body)
        × ((handle_request r server secret (length body) body).1 ≡ some (id, v))
        × (receive r (handle_request r server secret (length body) body).0 ≡ ok w)
  unfolding request_of receive bytes
  call_lem f w procedure result listed plain sendable fits plain' sendable' short' =
      let whole : length (bytes p request_object) ≤ half_slab = omega arith in
      let short : length (bytes p v) ≤ half_slab = omega (arith, length-request_object) in
      let handled =
        handle_request-request_object f w procedure result listed short short' plain sendable
          (omega arith) in
      let sent = encode_within p r.text_of (some (256 * 1024)) v short in
      let wrapped = encode_within p r.text_of (some (256 * 1024)) request_object whole in
      (
        bytes p request_object,
        rw (request_of, sent, wrapped) refl,
        ap (λ a. a.1) handled,
        ap (λ a. receive r a.0) handled ∙ decode-bytes_self p r.text_of w sendable' plain',
      )
