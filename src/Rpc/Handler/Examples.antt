-- ===== src/Rpc/Handler/Examples.antt =====
-- A server with one procedure, and calls of it.
use pureq.Rpc.Sample.{sample}
use pureq.Rpc.Codec.{ok, Value, bool, number}
use pureq.Rpc.Codec.Bytes.{bytes}
use pureq.Rpc.Codec.Growing.{half_slab}
use pureq.Rpc.Codec.Encode.{encode}
use pureq.Rpc.Codec.Decode.{decode}
use pureq.Rpc.Codec.Received.{Sendable}
use pureq.Rpc.Codec.Faithful.{Plain}
use pureq.Rpc.Handler.{
  Runtime, Server, binary, forbidden, too_large, generate_request_signature, request_limit,
  handle_request, request_of, receive,
}
use pureq.Rpc.Handler.Guard.{Authorized, handle_request-Authorized}
use pureq.Rpc.Handler.Call.{request_object, call_lem}
use pureq.Prelude.{
  ℕ, ◌≡◌, ◌≤◌, ap, refl, true, false, Option, none, some, List, [], ◌∷◌, ◌++◌, length, arith, min,
}

abbrev runtime : Runtime sample
runtime = record {
  text_of = λ v. [];
  units = λ t. t;
  hmac_sha256 = λ k m. k ++ m;
  hex = λ bs. bs;
  query_id_name = 113 ∷ [];
  signature_name = 115 ∷ [];
  params_name = 112 ∷ [];
}

abbrev ping : List ℕ
ping = 1 ∷ 2 ∷ []

abbrev answer_true : Value sample → Option (Value sample)
answer_true v = some (bool true)

abbrev server : Server sample
server = record {
  manifest = ping ∷ [];
  procedure = λ id. elim (sample.same_text.same id ping) [ true ↦ some answer_true | false ↦ none ];
  max_request_size = none;
}

abbrev secret : List ℕ
secret = 7 ∷ []

abbrev request : List ℕ
request = bytes sample (request_object runtime server secret ping (number 5))

sends-request : request_of runtime secret ping (number 5) ≡ some request
unfolding request_of bytes encode
sends-request = refl

handles-request :
    handle_request runtime server secret (length request) request
    ≡ (binary (1 ∷ 1 ∷ []), some (ping, number 5))
unfolding handle_request bytes encode decode
handles-request = refl

-- The secret of another session.
refuses-request :
    handle_request runtime server (8 ∷ []) (length request) request ≡ (forbidden, none)
unfolding handle_request bytes encode decode
refuses-request = refl

refuses-length : handle_request runtime server secret 2097153 [] ≡ (too_large, none)
unfolding handle_request
refuses-length = refl

object-Plain : Plain sample runtime.text_of (request_object runtime server secret ping (number 5))
unfolding Plain generate_request_signature bytes
object-Plain = (
  refl,
  refl,
  tt,
  refl,
  (refl, refl, (refl, tt), refl, (refl, refl, (refl, (refl, tt)), refl, tt)),
)

object-Sendable :
    Sendable sample runtime.text_of (request_object runtime server secret ping (number 5))
unfolding Sendable generate_request_signature bytes
object-Sendable =
    (omega arith, (omega arith, omega arith, (omega arith, omega arith, (omega arith, tt, tt))))

object-fits : length request ≤ min half_slab (request_limit runtime server secret)
unfolding bytes generate_request_signature
object-fits = omega arith

answer-fits : length (bytes sample (bool true)) ≤ half_slab
unfolding bytes
answer-fits = omega arith

handle_request-Authorized_example :
    (length request ≤ request_limit runtime server secret)
    × (length request ≤ request_limit runtime server secret)
    × ((decoded : Value sample) × (decode sample runtime.text_of request ≡ ok decoded)
        × Authorized runtime server secret decoded ping (number 5))
handle_request-Authorized_example =
    handle_request-Authorized runtime server secret (length request) request ping (number 5)
      (ap (λ a. a.1) handles-request)

call_lem_example :
    (body : List ℕ) × (request_of runtime secret ping (number 5) ≡ some body)
    × ((handle_request runtime server secret (length body) body).1 ≡ some (ping, number 5))
    × (receive runtime (handle_request runtime server secret (length body) body).0 ≡ ok (bool true))
unfolding Plain Sendable
call_lem_example =
    call_lem runtime server secret ping (number 5) answer_true (bool true) refl refl refl
      object-Plain object-Sendable object-fits tt tt answer-fits
