-- ===== src/Rpc/Sample.antt =====
-- A platform to evaluate the codec on: a text is the list of its bytes, a number a natural number
-- in one byte or a word.
use pureq.Rpc.{Platform}
use pureq.Prelude.Text.{codes_key}
use pureq.Prelude.{
  ℕ, ◌^◌, ◌<◌, ◌≡◌, refl, Bool, false, Option, none, some, List, [], ◌∷◌, ltb, ltb→lt, ◌==◌,
  number_key, if◌then◌else◌, arith,
}

-- 65279 is the byte order mark.
abbrev pub strip_bom : List ℕ → List ℕ
strip_bom [] = []
strip_bom (c ∷ cs) = if c == 65279 then cs else c ∷ cs

abbrev pub has_bom : List ℕ → Bool
has_bom [] = false
has_bom (c ∷ cs) = c == 65279

pub strip_bom_lem : (t : List ℕ) → has_bom t ≡ false → strip_bom t ≡ t
strip_bom_lem [] h = refl
strip_bom_lem (c ∷ cs) h = rw h refl

abbrev pub int_of : ℕ → Option ℕ
int_of n = if ltb n 4294967296 then some n else none

pub int_of-lt : (n w : ℕ) → int_of n ≡ some w → w < 2 ^ 32
int_of-lt n w h = ground (arith, ltb→lt n 4294967296)

pub int_of_self : (n w : ℕ) → int_of n ≡ some w → w ≡ n
int_of_self n w h = ground arith

abbrev pub head_or_zero : List ℕ → ℕ
head_or_zero [] = 0
head_or_zero (n ∷ ns) = n

abbrev pub sample : Platform
sample = record {
  Text = List ℕ;
  same_text = codes_key;
  proto = 95 ∷ 95 ∷ 112 ∷ [];
  utf8 = λ t. t;
  from_utf8 = strip_bom;
  is_altered = has_bom;
  from_utf8-utf8 = strip_bom_lem;
  Double = ℕ;
  set_float64 = λ d. d ∷ 0 ∷ 0 ∷ 0 ∷ 0 ∷ 0 ∷ 0 ∷ 0 ∷ [];
  get_float64 = head_or_zero;
  length-set_float64 = λ d. refl;
  get_float64-set_float64 = λ d. refl;
  as_int32 = int_of;
  as_int32-lt = int_of-lt;
  of_int32 = λ n. n;
  is_negative_zero = λ d. false;
  of_int32-as_int32 = λ d w e z. int_of_self d w e;
}
