-- ===== src/PgWire/Framing.antt =====
-- Where one message ends and the next begins, in the bytes that arrive.
use pureq.PgWire.{Texts, Buffer, ◌>>=◌, signed, word_of, next, decode_message}
use pureq.PgWire.Encoded.{
  message, Request, encode_request, type_of, body_of, encode_request-message,
}
use pureq.Prelude.{
  ℕ, zero, suc, ◌+◌, ◌-◌, ◌/◌, ◌%◌, ◌<◌, ◌≤◌, ◌≡◌, refl, ap, ◌∙◌, true, false, none, some, List, [],
  ◌∷◌, ◌++◌, leb, length, take, length-append, take-append_length, arith,
}
use pureq.Prelude.Int.{pos}

pub word_of-int32_bytes :
    (w : ℕ)
    → w < 4294967296
    → word_of (w / 16777216 % 256) (w / 65536 % 256) (w / 256 % 256) (w % 256) ≡ w
word_of-int32_bytes w h = omega arith

-- The end that a size gives.
end_of_size :
    (w : ℕ)
    → w < 2147483648
    → next (signed (word_of (w / 16777216 % 256) (w / 65536 % 256) (w / 256 % 256) (w % 256)))
      ≡ pos (suc w)
end_of_size w h = rw (word_of-int32_bytes w (omega (arith, h))) (ground arith)

length-take-le : (n : ℕ) (xs : List ℕ) → length (take n xs) ≤ n
length-take-le zero xs = omega arith
length-take-le (suc n) [] = omega arith
length-take-le (suc n) (x ∷ xs) = omega (arith, length-take-le n xs)

module _ (t : ℕ) (body : List ℕ) (small : length body + 4 < 2147483648) where
  -- A message at the front of the bytes is read as it was sent, and the bytes that it takes are
  -- counted, when its size fits into a word with a sign.
  pub decode_message-message :
      (rest : Buffer)
      → decode_message (message t body ++ rest)
        ≡ some (record { type = t; body = body }, pos (length body + 5))
  unfolding decode_message
  decode_message-message rest =
      let whole : leb (suc (length body + 4) + 0)
            (suc (suc (suc (suc (suc (length (body ++ rest)))))) + 0)
          ≡ true =
        ground (arith, length-append body rest) in
      let here : take (suc (length body + 4) - 5) (body ++ rest) ≡ body =
        ap (λ n. take n (body ++ rest)) (omega arith) ∙ take-append_length body rest in
      rw (end_of_size (length body + 4) small)
        (rw (whole, here) (ap (λ n. some (record { type = t; body = body }, pos n)) (omega arith)))

  -- As long as bytes of it are missing there is no message.
  pub decode_message-take :
      (n : ℕ) → n < length body + 5 → decode_message (take n (message t body)) ≡ none
  unfolding decode_message
  decode_message-take zero h = refl
  decode_message-take (suc zero) h = refl
  decode_message-take (suc (suc zero)) h = refl
  decode_message-take (suc (suc (suc zero))) h = refl
  decode_message-take (suc (suc (suc (suc zero)))) h = refl
  decode_message-take (suc (suc (suc (suc (suc m))))) h =
      let part : leb (suc (length body + 4) + 0)
            (suc (suc (suc (suc (suc (length (take m body)))))) + 0)
          ≡ false =
        ground (arith, length-take-le m body) in
      rw (end_of_size (length body + 4) small) (rw part refl)

-- What is written for a message to the server is read as that message and the bytes that it takes,
-- whatever follows it, when its size fits into a word with a sign.
pub encode_request-decode_message :
    (e : Texts) (r : Request e) (rest : Buffer)
    → length (body_of e r) + 4 < 2147483648
    → (encode_request e r >>= λ b. decode_message (b ++ rest))
      ≡ some (record { type = type_of e r; body = body_of e r }, pos (length (body_of e r) + 5))
encode_request-decode_message e r rest small =
    ap (λ m. m >>= λ b. decode_message (b ++ rest)) (encode_request-message e r)
    ∙ decode_message-message (type_of e r) (body_of e r) small rest
