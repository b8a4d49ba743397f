-- ===== src/PgWire.antt =====
-- packages/db/src/protocol/pg-wire.ts: the messages of the Postgres protocol. A byte is a number, a
-- buffer a list of them. The text encoding is a parameter.
pub mod Writes
pub mod Framing
pub mod Encoded
pub mod Rows
pub mod Received
pub mod ReceivedRow
pub mod Values
mod Examples
use pureq.Prelude.{
  ℕ, zero, suc, ◌+◌, ◌-◌, ◌*◌, ◌/◌, ◌%◌, ◌^◌, ◌≡◌, Bool, true, false, Option, none, some, List, [],
  ◌∷◌, ◌++◌, ltb, leb, ◌==◌, number_key, if◌then◌else◌, length, take, drop, replicate, map,
}
use pureq.Prelude.Int.{ℤ, pos, negsuc, leb_ℤ}
use pureq.Prelude.Text.{codes}

-- `Text` is the type of strings: `encode` is TextEncoder.encode, `units` the length of a string,
-- `ascii` the string of ASCII codes and `decode` TextDecoder.decode. `stringify` is JSON.stringify on the parameters of a query that are
-- neither null nor bytes nor strings.
pub record Texts : Type 1 where
  pub Text : Type 0
  pub encode : Text → List ℕ
  pub units : Text → ℕ
  pub ascii : List ℕ → Text
  pub decode : List ℕ → Text
  pub Json : Type 0
  pub stringify : Json → Text

abbrev pub Buffer : Type 0
Buffer = List ℕ

-- `none`: a RangeError.
infixl 5 ◌>>=◌
abbrev pub ◌>>=◌ {ℓ κ} : {A : Type ℓ} {B : Type κ} → Option A → (A → Option B) → Option B
none >>= f = none
some a >>= f = f a

-- `new Uint8Array(n)`
abbrev pub zeros : ℕ → Buffer
zeros n = replicate n 0

-- `buffer[i] = b`
unfoldable pub set_byte : ℕ → ℕ → Buffer → Buffer
set_byte i b [] = []
set_byte zero b (x ∷ xs) = b ∷ xs
set_byte (suc i) b (x ∷ xs) = x ∷ set_byte i b xs

-- `buffer.set(bytes, offset)`
unfoldable pub set_bytes : ℕ → List ℕ → Buffer → Option Buffer
set_bytes zero [] xs = some xs
set_bytes zero (b ∷ bs) [] = none
set_bytes zero (b ∷ bs) (x ∷ xs) = set_bytes zero bs xs >>= λ ys. some (b ∷ ys)
set_bytes (suc i) bs [] = none
set_bytes (suc i) bs (x ∷ xs) = set_bytes i bs xs >>= λ ys. some (x ∷ ys)

-- The bytes of a word, the highest first. More than 32 or 16 bits are cut.
abbrev pub int32_bytes : ℕ → List ℕ
int32_bytes w = (w / 16777216 % 256) ∷ (w / 65536 % 256) ∷ (w / 256 % 256) ∷ (w % 256) ∷ []

abbrev pub int16_bytes : ℕ → List ℕ
int16_bytes w = (w / 256 % 256) ∷ (w % 256) ∷ []

-- `view.setInt32(offset, w)`
abbrev pub set_int32 : ℕ → ℕ → Buffer → Option Buffer
set_int32 offset w = set_bytes offset (int32_bytes w)

abbrev pub set_int16 : ℕ → ℕ → Buffer → Option Buffer
set_int16 offset w = set_bytes offset (int16_bytes w)

-- -1 as a word
abbrev pub minus_one : ℕ
minus_one = 4294967295

abbrev pub encode_cancel_request : ℕ → ℕ → Option Buffer
encode_cancel_request process_id secret_key = do
  b ← set_int32 0 16 (zeros 16)
  b ← set_int32 4 80877102 b
  b ← set_int32 8 process_id b
  set_int32 12 secret_key b

abbrev pub encode_ssl_request : Option Buffer
encode_ssl_request = do b ← set_int32 0 8 (zeros 8); set_int32 4 80877103 b

-- The offsets of the loops: each word takes four bytes or two.
unfoldable pub set_all_int32 : ℕ → List ℕ → Buffer → Option Buffer
unfolding set_bytes
set_all_int32 offset [] b = some b
set_all_int32 offset (w ∷ ws) b = do b ← set_int32 offset w b; set_all_int32 (offset + 4) ws b

unfoldable pub set_all_int16 : ℕ → List ℕ → Buffer → Option Buffer
unfolding set_bytes
set_all_int16 offset [] b = some b
set_all_int16 offset (w ∷ ws) b = do b ← set_int16 offset w b; set_all_int16 (offset + 2) ws b

-- A parameter is null or its bytes.
unfoldable pub set_params : ℕ → List (Option (List ℕ)) → Buffer → Option Buffer
unfolding set_bytes
set_params offset [] b = some b
set_params offset (none ∷ ps) b = do b ← set_int32 offset minus_one b; set_params (offset + 4) ps b
set_params offset (some p ∷ ps) b = do
  b ← set_int32 offset (length p) b
  b ← set_bytes (offset + 4) p b
  set_params (offset + 4 + length p) ps b

abbrev pub param_size : Option (List ℕ) → ℕ
param_size none = 4
param_size (some p) = 4 + length p

abbrev pub params_size : List (Option (List ℕ)) → ℕ
params_size [] = 0
params_size (p ∷ ps) = param_size p + params_size ps

-- The head of a message: its type, and its size without the type.
abbrev pub head : ℕ → ℕ → Option Buffer
head type_code size = set_int32 1 size (set_byte 0 type_code (zeros (size + 1)))

module _ (e : Texts) where
  unfoldable pub encode_password : e.Text → Option Buffer
  unfolding set_bytes set_byte
  encode_password password =
      let pass_bytes = e.encode password in
      head 112 (4 + length pass_bytes + 1) >>= set_bytes 5 pass_bytes

  unfoldable pub encode_sasl_initial_response : e.Text → e.Text → Option Buffer
  unfolding set_bytes set_byte
  encode_sasl_initial_response mechanism client_first_message =
      let mech_bytes = e.encode mechanism in
      let msg_bytes = e.encode client_first_message in
      let offset = 5 + (length mech_bytes + 1) in
      do
        b ← head 112 (4 + length mech_bytes + 1 + 4 + length msg_bytes)
        b ← set_bytes 5 mech_bytes b
        b ← set_int32 offset (length msg_bytes) b
        set_bytes (offset + 4) msg_bytes b

  unfoldable pub encode_password_message : e.Text → Option Buffer
  unfolding set_bytes set_byte
  encode_password_message client_final_message =
      let msg_bytes = e.encode client_final_message in
      head 112 (4 + length msg_bytes) >>= set_bytes 5 msg_bytes

  unfoldable pub encode_parse : e.Text → e.Text → List ℕ → Option Buffer
  unfolding set_bytes set_byte set_all_int32
  encode_parse statement_name query param_oids =
      let name_bytes = e.encode statement_name in
      let query_bytes = e.encode query in
      let offset = 5 + (length name_bytes + 1) in
      let offset2 = offset + (length query_bytes + 1) in
      do
        b ← head 80 (4 + length name_bytes + 1 + length query_bytes + 1 + 2 + length param_oids * 4)
        b ← set_bytes 5 name_bytes b
        b ← set_bytes offset query_bytes b
        b ← set_int16 offset2 (length param_oids) b
        set_all_int32 (offset2 + 2) param_oids b

  unfoldable pub encode_describe : ℕ → e.Text → Option Buffer
  unfolding set_bytes set_byte
  encode_describe type name =
      let name_bytes = e.encode name in
      head 68 (4 + 1 + length name_bytes + 1) >>= λ b. set_bytes 6 name_bytes (set_byte 5 type b)

  unfoldable pub encode_execute : e.Text → ℕ → Option Buffer
  unfolding set_bytes set_byte
  encode_execute portal_name max_rows =
      let name_bytes = e.encode portal_name in
      do
        b ← head 69 (4 + length name_bytes + 1 + 4)
        b ← set_bytes 5 name_bytes b
        set_int32 (5 + (length name_bytes + 1)) max_rows b

  -- A parameter of a query
  pub data Param : Type 0 where
    null_param : Param
    bytes_param : List ℕ → Param
    text_param : e.Text → Param
    json_param : e.Json → Param

  abbrev pub encode_param : Param → Option (List ℕ)
  encode_param null_param = none
  encode_param (bytes_param p) = some p
  encode_param (text_param t) = some (e.encode t)
  encode_param (json_param j) = some (e.encode (e.stringify j))

  -- Without formats every result is binary.
  abbrev pub formats_of : List ℕ → List ℕ
  formats_of [] = 1 ∷ []
  formats_of (f ∷ fs) = f ∷ fs

  unfoldable pub encode_bind : e.Text → e.Text → List Param → List ℕ → Option Buffer
  unfolding set_bytes set_byte set_params set_all_int16
  encode_bind portal_name statement_name params result_formats =
      let p_name_bytes = e.encode portal_name in
      let s_name_bytes = e.encode statement_name in
      let encoded_params = map encode_param params in
      let formats = formats_of result_formats in
      let offset = 5 + (length p_name_bytes + 1) in
      let offset2 = offset + (length s_name_bytes + 1) in
      do
        b ← head 66 (
            4
            + length p_name_bytes
            + 1
            + length s_name_bytes
            + 1
            + 2
            + 2
            + 2
            + params_size encoded_params
            + 2
            + length formats * 2)
        b ← set_bytes 5 p_name_bytes b
        b ← set_bytes offset s_name_bytes b
        b ← set_int16 offset2 1 b
        b ← set_int16 (offset2 + 2) 0 b
        b ← set_int16 (offset2 + 4) (length encoded_params) b
        b ← set_params (offset2 + 6) encoded_params b
        b ← set_int16 (offset2 + 6 + params_size encoded_params) (length formats) b
        set_all_int16 (offset2 + 8 + params_size encoded_params) formats b

  -- Lengths are in units of the string, also where the bytes are put.
  abbrev pub size_of : e.Text → ℕ
  size_of t = e.units t + 1

  abbrev pub startup_size : List (e.Text × e.Text) → ℕ
  startup_size [] = 0
  startup_size ((k, v) ∷ ps) = size_of k + size_of v + startup_size ps

  -- An empty string is not put, and the offset stays.
  unfoldable pub set_text : ℕ → e.Text → Buffer → Option (ℕ × Buffer)
  unfolding set_bytes
  set_text offset t b =
      if e.units t == 0
      then some (offset, b)
      else set_bytes offset (e.encode t) b >>= λ b. some (offset + size_of t, b)

  unfoldable pub set_startup_params : ℕ → List (e.Text × e.Text) → Buffer → Option Buffer
  unfolding set_text set_byte
  set_startup_params offset [] b = some (set_byte offset 0 b)
  set_startup_params offset ((k, v) ∷ ps) b = do
    (offset1, b) ← set_text offset k b
    (offset2, b) ← set_text offset1 v b
    set_startup_params offset2 ps b

  abbrev pub startup_params : e.Text → e.Text → List (e.Text × e.Text)
  startup_params user database =
      (e.ascii (codes "user"), user)
      ∷ (e.ascii (codes "database"), database)
      ∷ (e.ascii (codes "client_encoding"), e.ascii (codes "UTF8"))
      ∷ []

  unfoldable pub encode_startup_message : e.Text → e.Text → Option Buffer
  unfolding set_bytes set_startup_params
  encode_startup_message user database =
      let params = startup_params user database in
      let size = 8 + startup_size params + 1 in
      do b ← set_int32 0 size (zeros size); b ← set_int32 4 196608 b; set_startup_params 8 params b

abbrev pub encode_sync : Option Buffer
encode_sync = head 83 4

-- `view.getInt32`, of four bytes
abbrev pub signed : ℕ → ℤ
signed w = if ltb w 2147483648 then pos w else negsuc (4294967295 - w)

abbrev pub word_of : ℕ → ℕ → ℕ → ℕ → ℕ
word_of a b c d = a * 16777216 + b * 65536 + c * 256 + d

pub record Message : Type 0 where
  pub type : ℕ
  pub body : List ℕ

-- `buffer.slice(5, end)`; a negative end counts from the end of the buffer.
abbrev pub slice_from_5 : ℤ → Buffer → List ℕ
slice_from_5 (pos end) buffer = take (end - 5) (drop 5 buffer)
slice_from_5 (negsuc n) buffer = take (length buffer - suc n - 5) (drop 5 buffer)

-- `length + 1`
abbrev pub next : ℤ → ℤ
next (pos n) = pos (suc n)
next (negsuc zero) = pos 0
next (negsuc (suc n)) = negsuc n

-- The message at the front and how many bytes it takes. `none` is null.
unfoldable pub decode_message : Buffer → Option (Message × ℤ)
decode_message (t ∷ a ∷ b ∷ c ∷ d ∷ rest) =
    let buffer = t ∷ a ∷ b ∷ c ∷ d ∷ rest in
    let end = next (signed (word_of a b c d)) in
    if leb_ℤ end (pos (length buffer))
    then some (record { type = t; body = slice_from_5 end buffer }, end)
    else none
decode_message _ = none
