-- ===== src/Rpc/Handler/Signature.antt =====
-- timingSafeEqual of crypto.ts decides equality: its loop ends with 0 just when nothing differs.
use Prim.Native.Nat.{bit_or, bit_xor, bit_or-bitwise, bit_xor-bitwise, digits, differ}
use pureq.Rpc.Handler.{difference, timing_safe_equal}
use pureq.Prelude.{
  ℕ, zero, suc, ◌+◌, ◌/◌, ◌%◌, ◌≤◌, ◌<◌, max, ◌≡◌, ◌↔◌, refl, sym, ap, ◌∙◌, subst, true, List, [],
  ◌∷◌, length, get_elem?, or_else, number_key, arith, ◌⊎◌, inl, inr, nat_beq, nat_beq_iff,
}

le-cases : (i j : ℕ) → i ≤ j → (i ≡ j) ⊎ (i < j)
le-cases i j h = ground arith

differ_zero : (a b : ℕ) → differ a b ≡ 0 → a ≡ b
differ_zero zero b e = sym e
differ_zero (suc a) zero e = absurd (omega arith)
differ_zero (suc a) (suc b) e = ap suc (differ_zero a b e)

differ_self : (a : ℕ) → differ a a ≡ 0
differ_self zero = refl
differ_self (suc a) = differ_self a

xor_digits_zero : (n a b : ℕ) → a ≤ n → digits (λ b. b) differ n a b ≡ 0 → a ≡ b
xor_digits_zero zero zero b h e = sym e
xor_digits_zero zero (suc a) b h e = absurd (omega arith)
xor_digits_zero (suc n) zero b h e = sym e
xor_digits_zero (suc n) (suc a) b h e = omega (
  arith,
  xor_digits_zero n (suc a / 2) (b / 2) (omega arith) (omega arith),
  differ_zero (suc a % 2) (b % 2) (omega arith),
)

xor_digits_self : (n a : ℕ) → a ≤ n → digits (λ b. b) differ n a a ≡ 0
xor_digits_self zero zero h = refl
xor_digits_self zero (suc a) h = absurd (omega arith)
xor_digits_self (suc n) zero h = refl
xor_digits_self (suc n) (suc a) h =
    omega (arith, xor_digits_self n (suc a / 2) (omega arith), differ_self (suc a % 2))

or_digits_zero : (n a b : ℕ) → a ≤ n → digits (λ b. b) max n a b ≡ 0 → (a ≡ 0) × (b ≡ 0)
or_digits_zero zero zero b h e = (refl, e)
or_digits_zero zero (suc a) b h e = absurd (omega arith)
or_digits_zero (suc n) zero b h e = (refl, e)
or_digits_zero (suc n) (suc a) b h e =
    let high = or_digits_zero n (suc a / 2) (b / 2) (omega arith) (omega arith) in
    (omega (arith, high.0), omega (arith, high.1))

bit_xor_zero : (a b : ℕ) → bit_xor a b ≡ 0 → a ≡ b
bit_xor_zero a b e = xor_digits_zero a a b (omega arith) (sym (bit_xor-bitwise a b) ∙ e)

bit_xor_self : (a : ℕ) → bit_xor a a ≡ 0
bit_xor_self a = bit_xor-bitwise a a ∙ xor_digits_self a a (omega arith)

bit_or_zero : (a b : ℕ) → bit_or a b ≡ 0 → (a ≡ 0) × (b ≡ 0)
bit_or_zero a b e = or_digits_zero a a b (omega arith) (sym (bit_or-bitwise a b) ∙ e)

-- the unit that the loop takes at a place
abbrev unit_at : List ℕ → ℕ → ℕ
unit_at a i = or_else (get_elem? a i) 0

difference_zero :
    (rounds i : ℕ) (a b : List ℕ) (diff : ℕ)
    → difference rounds i a b diff ≡ 0
    → (diff ≡ 0) × ((j : ℕ) → i ≤ j → j < i + rounds → unit_at a j ≡ unit_at b j)
unfolding difference
difference_zero zero i a b diff e = (e, λ j h k. absurd (omega arith))
difference_zero (suc rounds) i a b diff e =
    let later =
      difference_zero rounds (i + 1) a b (bit_or diff (bit_xor (unit_at a i) (unit_at b i))) e in
    let here = bit_or_zero diff (bit_xor (unit_at a i) (unit_at b i)) later.0 in
    (
      here.0,
      λ j h k. elim (le-cases i j h) [
        | inl e ↦
            subst (λ j. unit_at a j ≡ unit_at b j) e
              (bit_xor_zero (unit_at a i) (unit_at b i) here.1)
        | inr l ↦ later.1 j (omega arith) (omega arith)
      ],
    )

difference_self : (rounds i : ℕ) (a : List ℕ) → difference rounds i a a 0 ≡ 0
unfolding difference
difference_self zero i a = refl
difference_self (suc rounds) i a =
    ap (λ d. difference rounds (i + 1) a a (bit_or 0 d)) (bit_xor_self (unit_at a i))
    ∙ difference_self rounds (i + 1) a

same_units :
    (a b : List ℕ)
    → length a ≡ length b
    → ((j : ℕ) → j < length a → unit_at a j ≡ unit_at b j)
    → a ≡ b
same_units [] [] e h = refl
same_units [] (y ∷ b) e h = absurd (omega arith)
same_units (x ∷ a) [] e h = absurd (omega arith)
same_units (x ∷ a) (y ∷ b) e h =
    let first = h 0 (omega arith) in
    let others = same_units a b (omega arith) (λ j l. h (suc j) (omega arith)) in cc

-- The comparison is true of two texts just when they are the same units, whatever their lengths.
pub timing_safe_equal_iff : (a b : List ℕ) → (timing_safe_equal a b ≡ true) ↔ (a ≡ b)
unfolding timing_safe_equal
timing_safe_equal_iff a b =
    let rounds = max (length a) (length b) in
    let lengths = bit_xor (length a) (length b) in
    let result = difference rounds 0 a b lengths in
    (
      λ e.
          let equal = difference_zero rounds 0 a b lengths ((nat_beq_iff result 0).0 e) in
          let size = bit_xor_zero (length a) (length b) equal.0 in
          same_units a b size (λ j l. equal.1 j (omega arith) (omega arith)),
      λ e.
          subst (λ b. timing_safe_equal a b ≡ true) e
            (ap (λ d. nat_beq (difference (max (length a) (length a)) 0 a a d) 0)
                (bit_xor_self (length a))
              ∙ ap (λ d. nat_beq d 0) (difference_self (max (length a) (length a)) 0 a)),
    )
