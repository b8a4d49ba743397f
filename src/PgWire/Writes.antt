-- ===== src/PgWire/Writes.antt =====
-- What the writes into a new buffer leave there.
use mathlib.Core.List.{append_assoc, append-nil}
use pureq.PgWire.{
  Buffer, ◌>>=◌, zeros, set_byte, set_bytes, int32_bytes, int16_bytes, minus_one, set_all_int32,
  set_all_int16, set_params,
}
use pureq.Prelude.{
  ℕ, zero, suc, ◌+◌, ◌≡◌, refl, sym, ap, ◌∙◌, subst, Option, none, some, List, [], ◌∷◌, ◌++◌,
  length, length-append, arith,
}

-- Behind the bytes that are there, at the offset, the write puts its own and nothing more.
abbrev pub IsWrite : (Buffer → Option Buffer) → ℕ → List ℕ → Type 0
IsWrite f offset bs =
    (front : Buffer) (k : ℕ)
    → length front ≡ offset
    → f (front ++ zeros (length bs + k)) ≡ some (front ++ bs ++ zeros k)

pub run-IsWrite :
    (f : Buffer → Option Buffer) (bs : List ℕ) (n : ℕ)
    → IsWrite f 0 bs
    → n ≡ length bs
    → f (zeros n) ≡ some bs
run-IsWrite f bs n w e =
    ap (λ m. f (zeros m)) (e ∙ (omega arith)) ∙ w [] 0 refl ∙ ap some (append-nil bs)

pub seq-IsWrite :
    (f g : Buffer → Option Buffer) (offset later : ℕ) (bs cs : List ℕ)
    → IsWrite f offset bs
    → IsWrite g later cs
    → later ≡ offset + length bs
    → IsWrite (λ b. f b >>= g) offset (bs ++ cs)
seq-IsWrite f g offset later bs cs hf hg e front k h =
    let count : length (bs ++ cs) + k ≡ length bs + (length cs + k) =
      omega (arith, length-append bs cs) in
    ap (λ n. f (front ++ zeros n) >>= g) count
    ∙ ap (λ m. m >>= g) (hf front (length cs + k) h)
    ∙ hg (front ++ bs) k (omega (arith, length-append front bs))
    ∙ ap (λ b. some (b ++ zeros k)) (append_assoc front bs cs)

-- A byte that is left out is zero.
pub gap-IsWrite :
    (f : Buffer → Option Buffer) (offset : ℕ) (bs : List ℕ)
    → IsWrite f offset bs
    → IsWrite f offset (bs ++ 0 ∷ [])
gap-IsWrite f offset bs hf front k h =
    let count : length (bs ++ 0 ∷ []) + k ≡ length bs + suc k =
      omega (arith, length-append bs (0 ∷ [])) in
    ap (λ n. f (front ++ zeros n)) count
    ∙ hf front (suc k) h
    ∙ ap some (
        sym (append_assoc (front ++ bs) (0 ∷ []) (zeros k))
        ∙ ap (λ b. b ++ zeros k) (append_assoc front bs (0 ∷ [])))

set_bytes-zeros :
    (bs : List ℕ) (k : ℕ) → set_bytes zero bs (zeros (length bs + k)) ≡ some (bs ++ zeros k)
unfolding set_bytes
set_bytes-zeros [] k = ap (λ n. some (zeros n)) (omega arith)
set_bytes-zeros (b ∷ bs) k =
    let count : length (b ∷ bs) + k ≡ suc (length bs + k) = omega arith in
    ap (λ n. set_bytes zero (b ∷ bs) (zeros n)) count
    ∙ ap (λ m. m >>= λ ys. some (b ∷ ys)) (set_bytes-zeros bs k)

set_bytes-append :
    (front xs ys : Buffer) (bs : List ℕ)
    → set_bytes zero bs xs ≡ some ys
    → set_bytes (length front) bs (front ++ xs) ≡ some (front ++ ys)
unfolding set_bytes
set_bytes-append [] xs ys bs h = h
set_bytes-append (x ∷ front) xs ys bs h =
    ap (λ m. m >>= λ zs. some (x ∷ zs)) (set_bytes-append front xs ys bs h)

pub set_bytes-IsWrite : (offset : ℕ) (bs : List ℕ) → IsWrite (set_bytes offset bs) offset bs
set_bytes-IsWrite offset bs front k h =
    subst (λ n. set_bytes n bs (front ++ zeros (length bs + k)) ≡ some (front ++ bs ++ zeros k)) h
      (set_bytes-append front _ _ bs (set_bytes-zeros bs k)
        ∙ ap some (sym (append_assoc front bs (zeros k))))

set_byte-append :
    (front xs : Buffer) (x b : ℕ) → set_byte (length front) b (front ++ x ∷ xs) ≡ front ++ b ∷ xs
unfolding set_byte
set_byte-append [] xs x b = refl
set_byte-append (y ∷ front) xs x b = ap (◌∷◌ y) (set_byte-append front xs x b)

pub set_byte-IsWrite :
    (offset b : ℕ) → IsWrite (λ buffer. some (set_byte offset b buffer)) offset (b ∷ [])
set_byte-IsWrite offset b front k h =
    let count : length (b ∷ []) + k ≡ suc k = omega arith in
    ap (λ n. some (set_byte offset b (front ++ zeros n))) count
    ∙ ap (λ n. some (set_byte n b (front ++ 0 ∷ zeros k))) (sym h)
    ∙ ap some (set_byte-append front (zeros k) 0 b ∙ sym (append_assoc front (b ∷ []) (zeros k)))

-- The loops
abbrev pub int32s_bytes : List ℕ → List ℕ
int32s_bytes [] = []
int32s_bytes (w ∷ ws) = int32_bytes w ++ int32s_bytes ws

abbrev pub int16s_bytes : List ℕ → List ℕ
int16s_bytes [] = []
int16s_bytes (w ∷ ws) = int16_bytes w ++ int16s_bytes ws

abbrev pub param_bytes : Option (List ℕ) → List ℕ
param_bytes none = int32_bytes minus_one
param_bytes (some p) = int32_bytes (length p) ++ p

abbrev pub params_bytes : List (Option (List ℕ)) → List ℕ
params_bytes [] = []
params_bytes (p ∷ ps) = param_bytes p ++ params_bytes ps

nil-IsWrite : (offset : ℕ) → IsWrite some offset []
nil-IsWrite offset front k h =
    ap some
      (ap (λ n. front ++ zeros n) (omega arith) ∙ ap (λ b. b ++ zeros k) (sym (append-nil front)))

-- Bytes, and what follows them.
pub put-IsWrite :
    (g : Buffer → Option Buffer) (offset later : ℕ) (bs cs : List ℕ)
    → IsWrite g later cs
    → later ≡ offset + length bs
    → IsWrite (λ b. set_bytes offset bs b >>= g) offset (bs ++ cs)
put-IsWrite g offset later bs cs hg e =
    seq-IsWrite (set_bytes offset bs) g offset later bs cs (set_bytes-IsWrite offset bs) hg e

-- A text with a zero behind it, and what follows.
pub put_text-IsWrite :
    (g : Buffer → Option Buffer) (offset later : ℕ) (bs cs : List ℕ)
    → IsWrite g later cs
    → later ≡ offset + (length bs + 1)
    → IsWrite (λ b. set_bytes offset bs b >>= g) offset ((bs ++ 0 ∷ []) ++ cs)
put_text-IsWrite g offset later bs cs hg e =
    seq-IsWrite (set_bytes offset bs) g offset later (bs ++ 0 ∷ []) cs
      (gap-IsWrite (set_bytes offset bs) offset bs (set_bytes-IsWrite offset bs)) hg
      (omega (arith, length-append bs (0 ∷ [])))

pub set_all_int32-IsWrite :
    (offset : ℕ) (ws : List ℕ) → IsWrite (set_all_int32 offset ws) offset (int32s_bytes ws)
unfolding set_all_int32
set_all_int32-IsWrite offset [] = nil-IsWrite offset
set_all_int32-IsWrite offset (w ∷ ws) =
    put-IsWrite (set_all_int32 (offset + 4) ws) offset (offset + 4) (int32_bytes w)
      (int32s_bytes ws) (set_all_int32-IsWrite (offset + 4) ws) refl

pub set_all_int16-IsWrite :
    (offset : ℕ) (ws : List ℕ) → IsWrite (set_all_int16 offset ws) offset (int16s_bytes ws)
unfolding set_all_int16
set_all_int16-IsWrite offset [] = nil-IsWrite offset
set_all_int16-IsWrite offset (w ∷ ws) =
    put-IsWrite (set_all_int16 (offset + 2) ws) offset (offset + 2) (int16_bytes w)
      (int16s_bytes ws) (set_all_int16-IsWrite (offset + 2) ws) refl

pub set_params-IsWrite :
    (offset : ℕ) (ps : List (Option (List ℕ)))
    → IsWrite (set_params offset ps) offset (params_bytes ps)
unfolding set_params
set_params-IsWrite offset [] = nil-IsWrite offset
set_params-IsWrite offset (none ∷ ps) =
    put-IsWrite (set_params (offset + 4) ps) offset (offset + 4) (int32_bytes minus_one)
      (params_bytes ps) (set_params-IsWrite (offset + 4) ps) refl
set_params-IsWrite offset (some p ∷ ps) =
    put-IsWrite (λ b. set_bytes (offset + 4) p b >>= set_params (offset + 4 + length p) ps) offset
      (offset + 4) (int32_bytes (length p)) (p ++ params_bytes ps)
      (put-IsWrite (set_params (offset + 4 + length p) ps) (offset + 4) (offset + 4 + length p) p
        (params_bytes ps) (set_params-IsWrite (offset + 4 + length p) ps) refl)
      refl
