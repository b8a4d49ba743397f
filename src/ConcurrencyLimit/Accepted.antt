-- ===== src/ConcurrencyLimit/Accepted.antt =====
-- Which options concurrencyLimit.ts accepts.
use pureq.Prelude.JsNumber.{JsNumber, whole, minus, fractional, infinite, not_a_number}
use pureq.Prelude.{
  ℕ, zero, suc, ◌<◌, ◌≡◌, refl, ◌⊎◌, ◌↔◌, true, false, Option, none, some, text_key, arith, inl,
  inr,
}
use pureq.ConcurrencyLimit.{Options, Limits, validate_options, check_numbers}

abbrev pub Accepts : JsNumber → Option JsNumber → Limits → Type 0
Accepts most queue lim =
    (most ≡ whole lim.max_concurrent)
    × (0 < lim.max_concurrent)
    × (((queue ≡ none) × (lim.max_queue ≡ none))
        ⊎ ((q : ℕ) × (queue ≡ some (whole q)) × (lim.max_queue ≡ some q)))

check_numbers_sound :
    (most : JsNumber) (queue : Option JsNumber) (lim : Limits)
    → check_numbers most queue ≡ some lim
    → Accepts most queue lim
unfolding check_numbers
check_numbers_sound (whole (suc n)) none lim e =
    (ground arith, ground arith, inl (refl, ground arith))
check_numbers_sound (whole (suc n)) (some (whole q)) lim e =
    (ground arith, ground arith, inr (q, refl, ground arith))
check_numbers_sound (whole zero) none lim e = absurd (cc)
check_numbers_sound (whole zero) (some r) lim e = absurd (cc)
check_numbers_sound (minus n) none lim e = absurd (cc)
check_numbers_sound (minus n) (some r) lim e = absurd (cc)
check_numbers_sound (fractional p) none lim e = absurd (cc)
check_numbers_sound (fractional p) (some r) lim e = absurd (cc)
check_numbers_sound (infinite p) none lim e = absurd (cc)
check_numbers_sound (infinite p) (some r) lim e = absurd (cc)
check_numbers_sound not_a_number none lim e = absurd (cc)
check_numbers_sound not_a_number (some r) lim e = absurd (cc)
check_numbers_sound (whole (suc n)) (some (minus k)) lim e = absurd (cc)
check_numbers_sound (whole (suc n)) (some (fractional true)) lim e = absurd (cc)
check_numbers_sound (whole (suc n)) (some (fractional false)) lim e = absurd (cc)
check_numbers_sound (whole (suc n)) (some (infinite true)) lim e = absurd (cc)
check_numbers_sound (whole (suc n)) (some (infinite false)) lim e = absurd (cc)
check_numbers_sound (whole (suc n)) (some not_a_number) lim e = absurd (cc)

check_numbers_complete :
    (most : JsNumber) (queue : Option JsNumber) (lim : Limits)
    → Accepts most queue lim
    → check_numbers most queue ≡ some lim
unfolding check_numbers
check_numbers_complete most queue lim (m, pos, inl (q, n)) = rw (m, q) (ground arith)
check_numbers_complete most queue lim (m, pos, inr (k, q, n)) = rw (m, q) (ground arith)

-- The validation accepts exactly a whole `maxConcurrent` of at least 1 with a `maxQueue` that is
-- absent or whole and not negative, and the limits are those numbers.
pub validate_options_iff :
    (o : Options) (lim : Limits)
    → (validate_options o ≡ some lim) ↔ Accepts o.max_concurrent o.max_queue lim
unfolding validate_options
validate_options_iff o lim = (
  check_numbers_sound o.max_concurrent o.max_queue lim,
  check_numbers_complete o.max_concurrent o.max_queue lim,
)
