-- ===== src/Rpc/Handler/Guard.antt =====
-- What has to hold before the handler of handler.ts calls a procedure.
use pureq.Rpc.{Platform}
use pureq.Rpc.Codec.{
  Result, ok, violation, out_of_fuel, Value, null, undefined, unsupported, bool, number, string,
  date, error, buffer, array, object,
}
use pureq.Rpc.Codec.Encode.{encode}
use pureq.Rpc.Codec.Decode.{key_text, decode}
use pureq.Rpc.Handler.{
  Runtime, Server, Response, forbidden, too_large, generate_request_signature, get_field, is_signed,
  has_own, timing_safe_equal, request_limit, slab_size, execute, verify, handle_query,
  handle_decoded, handle_request,
}
use pureq.Rpc.Handler.Signature.{timing_safe_equal_iff}
use pureq.Prelude.{
  ℕ, ◌≤◌, ◌≡◌, refl, Bool, true, false, not, Option, none, some, List, ltb, lt→ltb, if◌then◌else◌,
  length, or_else, subst, arith,
}

not_ltb-le : (a b : ℕ) → ltb a b ≡ false → b ≤ a
not_ltb-le a b h = ground (arith, lt→ltb a b)

-- What a refusal in front of the rest says, when something was called.
passed {ℓ} :
    {A : Type ℓ} (b : Bool) (refusal : Response) (rest : Response × Option A) (a : A)
    → (if b then (refusal, none) else rest).1 ≡ some a
    → (b ≡ false) × (rest.1 ≡ some a)
passed true refusal rest a h = absurd cc
passed false refusal rest a h = (refl, h)

passed_not {ℓ} :
    {A : Type ℓ} (b : Bool) (rest : Response × Option A) (a : A)
    → (if not b then (forbidden, none) else rest).1 ≡ some a
    → (b ≡ true) × (rest.1 ≡ some a)
passed_not true rest a h = (refl, h)
passed_not false rest a h = absurd cc

module _ {p : Platform} (r : Runtime p) (server : Server p) (secret : p.Text) where
  -- The signature is a text with the units of the one that the secret gives for the query id and
  -- the encoded parameters.
  abbrev pub Signed : Value p → p.Text → Value p → Type 0
  Signed signature query_id params =
      (payload : List ℕ) × (encode p (some (slab_size r server secret)) params ≡ some payload)
      × ((text : p.Text) × (signature ≡ string text)
          × (r.units text ≡ r.units (generate_request_signature r secret query_id payload)))

  is_signed-units :
      (signature : Value p) (expected : p.Text)
      → is_signed r signature expected ≡ true
      → (text : p.Text) × (signature ≡ string text) × (r.units text ≡ r.units expected)
  unfolding timing_safe_equal
  is_signed-units null expected h = absurd (cc)
  is_signed-units undefined expected h = absurd (cc)
  is_signed-units unsupported expected h = absurd (cc)
  is_signed-units (bool b) expected h = absurd (cc)
  is_signed-units (number d) expected h = absurd (cc)
  is_signed-units (string text) expected h =
      (text, refl, (timing_safe_equal_iff (r.units text) (r.units expected)).0 h)
  is_signed-units (date d) expected h = absurd (cc)
  is_signed-units (error t) expected h = absurd (cc)
  is_signed-units (buffer b) expected h = absurd (cc)
  is_signed-units (array xs) expected h = absurd (cc)
  is_signed-units (object fs) expected h = absurd (cc)

  -- A call that the request asks for, is in the manifest and is signed.
  abbrev pub Authorized : Value p → p.Text → Value p → Type 0
  Authorized decoded id v =
      ((query : Value p) × (get_field r r.query_id_name decoded ≡ some query)
        × (key_text p r.text_of query ≡ id))
      × (or_else (get_field r r.params_name decoded) undefined ≡ v)
      × (has_own r id server.manifest ≡ true)
      × Signed (or_else (get_field r r.signature_name decoded) undefined) id v

  execute-ran :
      (query_id : p.Text) (params : Value p) (o : Option (Value p → Option (Value p))) (id : p.Text)
      (v : Value p)
      → (execute r server secret query_id params o).1 ≡ some (id, v)
      → (query_id ≡ id) × (params ≡ v)
  unfolding execute
  execute-ran query_id params none id v h = absurd cc
  execute-ran query_id params (some f) id v h = (cc, cc)

  verify-ran :
      (query_id : p.Text) (signature params : Value p) (o : Option (List ℕ)) (id : p.Text)
      (v : Value p)
      → encode p (some (slab_size r server secret)) params ≡ o
      → (verify r server secret query_id signature params o).1 ≡ some (id, v)
      → (query_id ≡ id) × (params ≡ v) × Signed signature query_id params
  unfolding verify
  verify-ran query_id signature params none id v e h = absurd cc
  verify-ran query_id signature params (some payload) id v e h =
      let signed =
        passed_not (is_signed r signature (generate_request_signature r secret query_id payload))
          (execute r server secret query_id params (server.procedure query_id)) (id, v) h in
      let ran = execute-ran query_id params (server.procedure query_id) id v signed.1 in
      (
        ran.0,
        ran.1,
        (
          payload,
          e,
          is_signed-units signature (generate_request_signature r secret query_id payload) signed.0,
        ),
      )

  handle_query-ran :
      (decoded : Value p) (o : Option (Value p)) (id : p.Text) (v : Value p)
      → get_field r r.query_id_name decoded ≡ o
      → (handle_query r server secret decoded o).1 ≡ some (id, v)
      → Authorized decoded id v
  unfolding handle_query
  handle_query-ran decoded none id v e h = absurd cc
  handle_query-ran decoded (some query) id v e h =
      let query_id = key_text p r.text_of query in
      let params = or_else (get_field r r.params_name decoded) undefined in
      let signature = or_else (get_field r r.signature_name decoded) undefined in
      let payload = encode p (some (slab_size r server secret)) params in
      let listed =
        passed_not (has_own r query_id server.manifest)
          (verify r server secret query_id signature params payload) (id, v) h in
      let verified = verify-ran query_id signature params payload id v refl listed.1 in
      (
        (query, e, verified.0),
        verified.1,
        subst (λ k. has_own r k server.manifest ≡ true) verified.0 listed.0,
        subst (λ k. Signed signature k v) verified.0
            (subst (Signed signature query_id) verified.1 verified.2),
      )

  handle_decoded-ran :
      (o : Result (Value p)) (id : p.Text) (v : Value p)
      → (handle_decoded r server secret o).1 ≡ some (id, v)
      → (decoded : Value p) × (o ≡ ok decoded) × Authorized decoded id v
  unfolding handle_decoded
  handle_decoded-ran (ok decoded) id v h =
      (decoded, refl, handle_query-ran decoded (get_field r r.query_id_name decoded) id v refl h)
  handle_decoded-ran violation id v h = absurd cc
  handle_decoded-ran out_of_fuel id v h = absurd cc

  -- A procedure is called only when the announced and the actual length of the body are within the
  -- limit, and the body decodes to an object that names the procedure, an own key of the manifest,
  -- and its input, and whose signature is a text with the units of the one that the secret gives for the
  -- name and the encoded input.
  pub handle_request-Authorized :
      (content_length : ℕ) (body : List ℕ) (id : p.Text) (v : Value p)
      → (handle_request r server secret content_length body).1 ≡ some (id, v)
      → (content_length ≤ request_limit r server secret)
        × (length body ≤ request_limit r server secret)
        × ((decoded : Value p) × (decode p r.text_of body ≡ ok decoded) × Authorized decoded id v)
  unfolding handle_request
  handle_request-Authorized content_length body id v h =
      let limit = request_limit r server secret in
      let inner = handle_decoded r server secret (decode p r.text_of body) in
      let announced =
        passed (ltb limit content_length) too_large
          (if ltb limit (length body) then (too_large, none) else inner) (id, v) h in
      let actual = passed (ltb limit (length body)) too_large inner (id, v) announced.1 in
      (
        not_ltb-le limit content_length announced.0,
        not_ltb-le limit (length body) actual.0,
        handle_decoded-ran (decode p r.text_of body) id v actual.1,
      )
