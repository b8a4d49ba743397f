-- ===== src/Query/Done.antt =====
-- When a chain of fallible steps has a value.
use pureq.Query.{Answer, done, refused, out_of_fuel, ◌>>=◌}
use pureq.Query.Compiler.{Compiled, traverse, json_pair}
use pureq.Prelude.{suc, ◌≤◌, ◌≡◌, refl, ap, List, [], ◌∷◌, length, All, arith}
use pureq.Prelude.Text.{codes_key}

-- There is a value, and it is as stated.
abbrev pub IsDone {ℓ} : {A : Type ℓ} → (A → Type 0) → Answer A → Type 0
IsDone P (done a) = P a
IsDone P (refused r) = ⊥
IsDone P out_of_fuel = ⊥

abbrev pub Any {ℓ} : {A : Type ℓ} → A → Type 0
Any a = Unit

pub >>=-IsDone {ℓ κ} :
    {A : Type ℓ} {B : Type κ} (P : A → Type 0) (Q : B → Type 0) (m : Answer A) (k : A → Answer B)
    → IsDone P m
    → ((a : A) → P a → IsDone Q (k a))
    → IsDone Q (m >>= k)
>>=-IsDone P Q (done a) k h j = j a h
>>=-IsDone P Q (refused r) k h j = absurd h
>>=-IsDone P Q out_of_fuel k h j = absurd h

-- The value of a first step from which the rest has a value.
pub bind-IsDone {ℓ κ} :
    {A : Type ℓ} {B : Type κ} (Q : B → Type 0) (m : Answer A) (k : A → Answer B)
    → IsDone Q (m >>= k)
    → IsDone (λ a. IsDone Q (k a)) m
bind-IsDone Q (done a) k h = h
bind-IsDone Q (refused r) k h = h
bind-IsDone Q out_of_fuel k h = h

pub IsDone-imp {ℓ} :
    {A : Type ℓ} (P Q : A → Type 0) (m : Answer A) → ((a : A) → P a → Q a) → IsDone P m → IsDone Q m
IsDone-imp P Q (done a) f h = f a h
IsDone-imp P Q (refused r) f h = h
IsDone-imp P Q out_of_fuel f h = h

-- A statement whose value is not used, and the rest.
pub both-IsDone {ℓ κ} :
    {A : Type ℓ} {B : Type κ} (m : Answer A) (n : Answer B)
    → IsDone Any (m >>= λ a. n)
    → IsDone Any m × IsDone Any n
both-IsDone (done a) n h = (tt, h)
both-IsDone (refused r) n h = absurd h
both-IsDone out_of_fuel n h = absurd h

pub traverse-IsDone {ℓ κ} :
    {A : Type ℓ} {B : Type κ} (f : A → Answer B) (xs : List A)
    → All (λ x. IsDone Any (f x)) xs
    → IsDone (λ ys. length ys ≡ length xs) (traverse f xs)
traverse-IsDone f [] h = refl
traverse-IsDone f (x ∷ xs) h =
    >>=-IsDone Any (λ ys. length ys ≡ length (x ∷ xs)) (f x) _ h.0
      λ y u.
        >>=-IsDone (λ ys. length ys ≡ length xs) (λ ys. length ys ≡ length (x ∷ xs)) (traverse f xs)
          _ (traverse-IsDone f xs h.1) λ ys e. ap suc e

pub json_pair-IsDone :
    {V : Type 0} (cs : List (Compiled V)) → 2 ≤ length cs → IsDone Any (json_pair cs)
json_pair-IsDone [] h = absurd (omega arith)
json_pair-IsDone (c ∷ []) h = absurd (omega arith)
json_pair-IsDone (c ∷ d ∷ cs) h = tt
