-- ===== src/Rpc.antt =====
-- packages/rpc/src/runtime: remote calls. A call is a value that the codec turns into bytes; the
-- platform's text encoding and float format are parameters (`Platform`), with what is documented
-- of them.
pub mod Codec
pub mod Handler
pub mod Sample
use pureq.Prelude.{ℕ, ◌^◌, ◌<◌, ◌≡◌, Bool, false, Option, some, List, length, Key}

-- `Text` is the type of strings, `Double` that of numbers. `as_int32` gives the bit pattern of a
-- number that is an int32, -0 among them. `is_altered`
-- holds of the texts that do not survive the text encoding: those with a surrogate that has no
-- partner, and those with a byte order mark in front, which a decoder strips.
pub record Platform : Type 1 where
  pub Text : Type 0
  pub same_text : Key Text
  pub proto : Text
  pub utf8 : Text → List ℕ
  pub from_utf8 : List ℕ → Text
  pub is_altered : Text → Bool
  pub from_utf8-utf8 : (t : Text) → is_altered t ≡ false → from_utf8 (utf8 t) ≡ t
  pub Double : Type 0
  pub set_float64 : Double → List ℕ
  pub get_float64 : List ℕ → Double
  pub length-set_float64 : (d : Double) → length (set_float64 d) ≡ 8
  pub get_float64-set_float64 : (d : Double) → get_float64 (set_float64 d) ≡ d
  pub as_int32 : Double → Option ℕ
  pub as_int32-lt : (d : Double) (w : ℕ) → as_int32 d ≡ some w → w < 2 ^ 32
  pub of_int32 : ℕ → Double
  pub is_negative_zero : Double → Bool
  pub of_int32-as_int32 :
      (d : Double) (w : ℕ) → as_int32 d ≡ some w → is_negative_zero d ≡ false → of_int32 w ≡ d
