-- ===== src/Rpc/Handler.antt =====
-- packages/rpc/src/runtime/server/handler.ts with shared/crypto.ts, and the client's side of a call
-- in client/proxy.ts. The secret is the one of the context; HMAC, its hexadecimal text, fetch and
-- the procedures are parameters. Left out: a request whose fields are
-- inherited from a `__proto__` field, and a manifest with an entry `undefined`.
pub mod Signature
pub mod Guard
pub mod Call
mod Examples
use Prim.Native.Nat.{bit_xor, bit_or}
use pureq.Rpc.{Platform}
use pureq.Rpc.Codec.{
  Result, ok, violation, out_of_fuel, Value, Fields, null, undefined, string, object, no_fields,
  field,
}
use pureq.Rpc.Codec.Encode.{encode}
use pureq.Rpc.Codec.Decode.{key_text, decode}
use pureq.Prelude.{
  ℕ, zero, suc, ◌+◌, ◌*◌, min, max, ◌≡◌, Bool, true, false, not, Option, none, some, List, [], ◌∷◌,
  ◌++◌, ltb, ◌==◌, number_key, if◌then◌else◌, length, get_elem?, or_else, some_of,
}

-- `timingSafeEqual` on the code units of two texts: `rounds` are left, the next is that at `i`.
unfoldable pub difference : ℕ → ℕ → List ℕ → List ℕ → ℕ → ℕ
difference zero i a b diff = diff
difference (suc rounds) i a b diff =
    difference rounds (i + 1) a b
      (bit_or diff (bit_xor (or_else (get_elem? a i) 0) (or_else (get_elem? b i) 0)))

unfoldable pub timing_safe_equal : List ℕ → List ℕ → Bool
unfolding difference
timing_safe_equal a b =
    difference (max (length a) (length b)) 0 a b (bit_xor (length a) (length b)) == 0

-- What a call relies on beside the codec. `units` are the code units of a text, and the last three
-- fields the names of the request's own fields.
pub record Runtime (p : Platform) : Type 0 where
  pub text_of : Value p → p.Text
  pub units : p.Text → List ℕ
  pub hmac_sha256 : List ℕ → List ℕ → List ℕ
  pub hex : List ℕ → p.Text
  pub query_id_name : p.Text
  pub signature_name : p.Text
  pub params_name : p.Text

-- `manifest` are the own keys of the manifest. A procedure that rejects is `none`.
pub record Server (p : Platform) : Type 0 where
  pub manifest : List p.Text
  pub procedure : p.Text → Option (Value p → Option (Value p))
  pub max_request_size : Option ℕ

pub data Response : Type 0 where
  too_large forbidden : Response
  binary : List ℕ → Response

module _ {p : Platform} (r : Runtime p) where
  unfoldable pub generate_request_signature : p.Text → p.Text → List ℕ → p.Text
  generate_request_signature secret query_id payload =
      r.hex (r.hmac_sha256 (p.utf8 secret) (p.utf8 query_id ++ payload))

  abbrev pub own_field : p.Text → Fields p → Value p
  own_field k no_fields = undefined
  own_field k (field j v fs) = let rest = own_field k fs in if p.same_text.same j k then v else rest

  -- `const { … } = decoded`, which throws for `null`.
  abbrev pub get_field : p.Text → Value p → Option (Value p)
  get_field k null = none
  get_field k undefined = none
  get_field k (object fs) = some (own_field k fs)
  get_field k v = some undefined

  -- A signature that is no text is refused, or the comparison throws.
  abbrev pub is_signed : Value p → p.Text → Bool
  is_signed (string signature) expected = timing_safe_equal (r.units signature) (r.units expected)
  is_signed v expected = false

  abbrev pub has_own : p.Text → List p.Text → Bool
  has_own k keys = some_of (λ j. p.same_text.same j k) keys

  module _ (server : Server p) (secret : p.Text) where
    -- `maxRequestSize || 2 * 1024 * 1024`
    abbrev pub request_limit : ℕ
    request_limit = elim server.max_request_size [
      | none ↦ 2 * 1024 * 1024
      | some n ↦ if n == 0 then 2 * 1024 * 1024 else n
    ]

    abbrev pub slab_size : ℕ
    slab_size = min request_limit (32 * 1024)

    -- The procedure's call, and the response to what it comes to.
    unfoldable pub execute :
        p.Text
        → Value p
        → Option (Value p → Option (Value p))
        → Response × Option (p.Text × Value p)
    execute query_id params none = (forbidden, none)
    execute query_id params (some procedure) = (
      elim (procedure params) [
        | none ↦ forbidden
        | some result ↦ elim (encode p (some slab_size) result) [
          | none ↦ forbidden
          | some bs ↦ binary bs
        ]
      ],
      some (query_id, params),
    )

    -- The check of the signature over the parameters encoded anew.
    unfoldable pub verify :
        p.Text → Value p → Value p → Option (List ℕ) → Response × Option (p.Text × Value p)
    unfolding execute generate_request_signature timing_safe_equal
    verify query_id signature params none = (forbidden, none)
    verify query_id signature params (some payload) =
        if not (is_signed signature (generate_request_signature secret query_id payload))
        then (forbidden, none)
        else execute query_id params (server.procedure query_id)

    -- What follows once `queryId` could be read.
    unfoldable pub handle_query : Value p → Option (Value p) → Response × Option (p.Text × Value p)
    unfolding verify
    handle_query decoded none = (forbidden, none)
    handle_query decoded (some query) =
        let query_id = key_text p r.text_of query in
        let params = or_else (get_field r.params_name decoded) undefined in
        let signature = or_else (get_field r.signature_name decoded) undefined in
        if not (has_own query_id server.manifest)
        then (forbidden, none)
        else verify query_id signature params (encode p (some slab_size) params)

    unfoldable pub handle_decoded : Result (Value p) → Response × Option (p.Text × Value p)
    unfolding handle_query
    handle_decoded (ok decoded) = handle_query decoded (get_field r.query_id_name decoded)
    handle_decoded _ = (forbidden, none)

    -- `handleRequest`: the response, and the procedure that was called with its input.
    unfoldable pub handle_request : ℕ → List ℕ → Response × Option (p.Text × Value p)
    unfolding handle_decoded
    handle_request content_length body =
        if ltb request_limit content_length
        then (too_large, none)
        else if ltb request_limit (length body)
        then (too_large, none)
        else handle_decoded (decode p r.text_of body)

  -- createPureqClient: the body of the request. `none` is an error of the encoder.
  unfoldable pub request_of : p.Text → p.Text → Value p → Option (List ℕ)
  unfolding generate_request_signature
  request_of secret query_id params = elim (encode p (some (256 * 1024)) params) [
    | none ↦ none
    | some payload ↦ encode p (some (256 * 1024)) (
        object (
          field r.query_id_name (string query_id) (
            field r.signature_name (string (generate_request_signature secret query_id payload))
              (field r.params_name params no_fields))))
  ]

  -- What the client's promise comes to; a status that is not ok throws.
  unfoldable pub receive : Response → Result (Value p)
  receive too_large = violation
  receive forbidden = violation
  receive (binary bs) = decode p r.text_of bs
