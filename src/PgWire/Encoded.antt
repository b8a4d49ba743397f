-- ===== src/PgWire/Encoded.antt =====
-- The messages to the server as the protocol describes them, and that the encoders write them.
use pureq.PgWire.{
  Texts, Buffer, ◌>>=◌, set_byte, set_bytes, int32_bytes, int16_bytes, set_int32, set_int16,
  set_all_int32, set_all_int16, set_params, params_size, param_size, head, encode_password,
  encode_sasl_initial_response, encode_password_message, encode_parse, encode_describe,
  encode_execute, Param, encode_param, formats_of, encode_bind, encode_sync,
}
use pureq.PgWire.Writes.{
  IsWrite, run-IsWrite, seq-IsWrite, gap-IsWrite, set_bytes-IsWrite, set_byte-IsWrite, put-IsWrite,
  put_text-IsWrite, int32s_bytes, int16s_bytes, params_bytes, param_bytes, set_all_int32-IsWrite,
  set_all_int16-IsWrite, set_params-IsWrite,
}
use pureq.Prelude.{
  ℕ, ◌+◌, ◌*◌, ◌≡◌, refl, ap, ◌∙◌, Option, none, some, List, [], ◌∷◌, ◌++◌, map, length,
  length-append, arith,
}

-- A message: its type, its size without the type, and what it says.
abbrev pub message : ℕ → List ℕ → Buffer
message type_code body = type_code ∷ int32_bytes (length body + 4) ++ body

-- A text ends with a zero.
abbrev pub terminated : List ℕ → List ℕ
terminated bs = bs ++ 0 ∷ []

head-message :
    (type_code size : ℕ) (g : Buffer → Option Buffer) (body : List ℕ)
    → IsWrite g 5 body
    → size ≡ length body + 4
    → (head type_code size >>= g) ≡ some (message type_code body)
head-message type_code size g body w e =
    run-IsWrite (λ b. some (set_byte 0 type_code b) >>= λ b. set_int32 1 size b >>= g)
      (type_code ∷ int32_bytes size ++ body) (size + 1)
      (seq-IsWrite (λ b. some (set_byte 0 type_code b)) (λ b. set_int32 1 size b >>= g) 0 1
        (type_code ∷ []) (int32_bytes size ++ body) (set_byte-IsWrite 0 type_code)
        (put-IsWrite g 1 5 (int32_bytes size) body w refl) refl)
      bytes_count
    ∙ ap (λ n. some (type_code ∷ int32_bytes n ++ body)) e
  where
    bytes_count : size + 1 ≡ length (type_code ∷ int32_bytes size ++ body)
    bytes_count = omega arith

length-terminated : (bs cs : List ℕ) → length (terminated bs ++ cs) ≡ length bs + 1 + length cs
length-terminated bs cs = omega (arith, length-append (terminated bs) cs, length-append bs (0 ∷ []))

length-int32s_bytes : (ws : List ℕ) → length (int32s_bytes ws) ≡ length ws * 4
length-int32s_bytes [] = refl
length-int32s_bytes (w ∷ ws) = omega (arith, length-int32s_bytes ws)

length-int16s_bytes : (ws : List ℕ) → length (int16s_bytes ws) ≡ length ws * 2
length-int16s_bytes [] = refl
length-int16s_bytes (w ∷ ws) = omega (arith, length-int16s_bytes ws)

length-param_bytes : (p : Option (List ℕ)) → length (param_bytes p) ≡ param_size p
length-param_bytes none = refl
length-param_bytes (some p) = omega arith

length-params_bytes : (ps : List (Option (List ℕ))) → length (params_bytes ps) ≡ params_size ps
length-params_bytes [] = refl
length-params_bytes (p ∷ ps) = omega (
  arith,
  length-append (param_bytes p) (params_bytes ps),
  length-param_bytes p,
  length-params_bytes ps,
)

abbrev pub bind_body : List (Option (List ℕ)) → List ℕ → List ℕ
bind_body params formats =
    int16_bytes 1
    ++ (int16_bytes 0
        ++ (int16_bytes (length params)
            ++ (params_bytes params ++ (int16_bytes (length formats) ++ int16s_bytes formats))))

-- What `encode_bind` writes behind the names.
abbrev bind_rest : ℕ → List (Option (List ℕ)) → List ℕ → Buffer → Option Buffer
bind_rest offset params formats b = do
  b ← set_int16 offset 1 b
  b ← set_int16 (offset + 2) 0 b
  b ← set_int16 (offset + 4) (length params) b
  b ← set_params (offset + 6) params b
  b ← set_int16 (offset + 6 + params_size params) (length formats) b
  set_all_int16 (offset + 8 + params_size params) formats b

bind_rest-IsWrite :
    (offset : ℕ) (params : List (Option (List ℕ))) (formats : List ℕ)
    → IsWrite (bind_rest offset params formats) offset (bind_body params formats)
bind_rest-IsWrite offset params formats =
    put-IsWrite _ offset (offset + 2) (int16_bytes 1) _
      (put-IsWrite _ (offset + 2) (offset + 4) (int16_bytes 0) _
        (put-IsWrite _ (offset + 4) (offset + 6) (int16_bytes (length params)) _
          (seq-IsWrite (set_params (offset + 6) params) _ (offset + 6)
            (offset + 6 + params_size params) (params_bytes params) _
            (set_params-IsWrite (offset + 6) params)
            (put-IsWrite (set_all_int16 (offset + 8 + params_size params) formats)
              (offset + 6 + params_size params) (offset + 8 + params_size params)
              (int16_bytes (length formats)) (int16s_bytes formats)
              (set_all_int16-IsWrite (offset + 8 + params_size params) formats) (omega arith))
            (omega (arith, length-params_bytes params)))
          (omega arith))
        (omega arith))
      refl

length-bind_body :
    (params : List (Option (List ℕ))) (formats : List ℕ)
    → length (bind_body params formats) ≡ 8 + params_size params + length formats * 2
length-bind_body params formats = omega (
  arith,
  length-append (params_bytes params) (int16_bytes (length formats) ++ int16s_bytes formats),
  length-params_bytes params,
  length-int16s_bytes formats,
)

-- The messages that the client sends once it is connected or to sign in.
pub data Request (e : Texts) : Type 0 where
  password : e.Text → Request e
  sasl_initial : e.Text → e.Text → Request e
  sasl_final : e.Text → Request e
  parse : e.Text → e.Text → List ℕ → Request e
  bind : e.Text → e.Text → List (Param e) → List ℕ → Request e
  describe : ℕ → e.Text → Request e
  execute : e.Text → ℕ → Request e
  sync : Request e

module _ (e : Texts) where
  abbrev pub encode_request : Request e → Option Buffer
  encode_request (password t) = encode_password e t
  encode_request (sasl_initial mechanism first) = encode_sasl_initial_response e mechanism first
  encode_request (sasl_final t) = encode_password_message e t
  encode_request (parse name query oids) = encode_parse e name query oids
  encode_request (bind portal name params formats) = encode_bind e portal name params formats
  encode_request (describe kind name) = encode_describe e kind name
  encode_request (execute portal rows) = encode_execute e portal rows
  encode_request sync = encode_sync

  -- The letters p, P, B, D, E and S
  abbrev pub type_of : Request e → ℕ
  type_of (password t) = 112
  type_of (sasl_initial mechanism first) = 112
  type_of (sasl_final t) = 112
  type_of (parse name query oids) = 80
  type_of (bind portal name params formats) = 66
  type_of (describe kind name) = 68
  type_of (execute portal rows) = 69
  type_of sync = 83

  abbrev pub body_of : Request e → List ℕ
  body_of (password t) = terminated (e.encode t)
  body_of (sasl_initial mechanism first) =
      terminated (e.encode mechanism) ++ (int32_bytes (length (e.encode first)) ++ e.encode first)
  body_of (sasl_final t) = e.encode t
  body_of (parse name query oids) =
      terminated (e.encode name)
      ++ (terminated (e.encode query) ++ (int16_bytes (length oids) ++ int32s_bytes oids))
  body_of (bind portal name params formats) =
      terminated (e.encode portal)
      ++ (terminated (e.encode name)
          ++ bind_body (map (encode_param e) params) (formats_of e formats))
  body_of (describe kind name) = kind ∷ terminated (e.encode name)
  body_of (execute portal rows) = terminated (e.encode portal) ++ int32_bytes rows
  body_of sync = []

  -- Every message to the server that has a type (not the startup message and the requests for SSL
  -- and for a cancellation) is written, into a buffer of its length, as the protocol describes it:
  -- its type, its size, and its parts in order, each text with a zero behind it.
  pub encode_request-message :
      (r : Request e) → encode_request r ≡ some (message (type_of r) (body_of r))
  unfolding encode_password encode_sasl_initial_response encode_password_message encode_parse
      encode_bind encode_describe encode_execute
  encode_request-message (password t) =
      head-message 112 _ (set_bytes 5 (e.encode t)) (terminated (e.encode t))
        (gap-IsWrite (set_bytes 5 (e.encode t)) 5 (e.encode t) (set_bytes-IsWrite 5 (e.encode t)))
        (omega (arith, length-append (e.encode t) (0 ∷ [])))
  encode_request-message (sasl_initial mechanism first) =
      let name = e.encode mechanism in
      let text = e.encode first in
      let offset = 5 + (length name + 1) in
      let size_bytes = int32_bytes (length text) in
      head-message 112 _
        (λ b.
          set_bytes 5 name b >>= λ b. set_bytes offset size_bytes b >>= set_bytes (offset + 4) text)
        (body_of (sasl_initial mechanism first))
        (put_text-IsWrite (λ b. set_bytes offset size_bytes b >>= set_bytes (offset + 4) text) 5
          offset name (size_bytes ++ text)
          (put-IsWrite (set_bytes (offset + 4) text) offset (offset + 4) size_bytes text
            (set_bytes-IsWrite (offset + 4) text) refl)
          refl)
        (omega (arith, length-terminated name (size_bytes ++ text)))
  encode_request-message (sasl_final t) =
      head-message 112 _ (set_bytes 5 (e.encode t)) (e.encode t) (set_bytes-IsWrite 5 (e.encode t))
        (omega arith)
  encode_request-message (parse name query oids) =
      let first = e.encode name in
      let second = e.encode query in
      let offset = 5 + (length first + 1) in
      let offset2 = offset + (length second + 1) in
      let rest : Buffer → Option Buffer =
        λ b. set_bytes offset2 (int16_bytes (length oids)) b >>= set_all_int32 (offset2 + 2) oids in
      let tail : List ℕ = int16_bytes (length oids) ++ int32s_bytes oids in
      head-message 80 _ (λ b. set_bytes 5 first b >>= λ b. set_bytes offset second b >>= rest)
        (body_of (parse name query oids))
        (put_text-IsWrite (λ b. set_bytes offset second b >>= rest) 5 offset first
          (terminated second ++ tail)
          (put_text-IsWrite rest offset offset2 second tail
            (put-IsWrite (set_all_int32 (offset2 + 2) oids) offset2 (offset2 + 2)
              (int16_bytes (length oids)) (int32s_bytes oids)
              (set_all_int32-IsWrite (offset2 + 2) oids) refl)
            refl)
          refl)
        (omega (
          arith,
          length-terminated first (terminated second ++ tail),
          length-terminated second tail,
          length-int32s_bytes oids,
        ))
  encode_request-message (bind portal name params formats) =
      let first = e.encode portal in
      let second = e.encode name in
      let ps = map (encode_param e) params in
      let fs = formats_of e formats in
      let offset = 5 + (length first + 1) in
      let offset2 = offset + (length second + 1) in
      head-message 66 _
        (λ b. set_bytes 5 first b >>= λ b. set_bytes offset second b >>= bind_rest offset2 ps fs)
        (body_of (bind portal name params formats))
        (put_text-IsWrite (λ b. set_bytes offset second b >>= bind_rest offset2 ps fs) 5 offset
          first (terminated second ++ bind_body ps fs)
          (put_text-IsWrite (bind_rest offset2 ps fs) offset offset2 second (bind_body ps fs)
            (bind_rest-IsWrite offset2 ps fs) refl)
          refl)
        (omega (
          arith,
          length-terminated first (terminated second ++ bind_body ps fs),
          length-terminated second (bind_body ps fs),
          length-bind_body ps fs,
        ))
  encode_request-message (describe kind name) =
      head-message 68 _ (λ b. some (set_byte 5 kind b) >>= set_bytes 6 (e.encode name))
        (kind ∷ terminated (e.encode name))
        (seq-IsWrite (λ b. some (set_byte 5 kind b)) (set_bytes 6 (e.encode name)) 5 6 (kind ∷ [])
          (terminated (e.encode name)) (set_byte-IsWrite 5 kind)
          (gap-IsWrite (set_bytes 6 (e.encode name)) 6 (e.encode name)
            (set_bytes-IsWrite 6 (e.encode name)))
          refl)
        (omega (arith, length-append (e.encode name) (0 ∷ [])))
  encode_request-message (execute portal rows) =
      let name = e.encode portal in
      let offset = 5 + (length name + 1) in
      head-message 69 _ (λ b. set_bytes 5 name b >>= set_bytes offset (int32_bytes rows))
        (body_of (execute portal rows))
        (put_text-IsWrite (set_bytes offset (int32_bytes rows)) 5 offset name (int32_bytes rows)
          (set_bytes-IsWrite offset (int32_bytes rows)) refl)
        (omega (arith, length-terminated name (int32_bytes rows)))
  encode_request-message sync = refl
