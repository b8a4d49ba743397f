-- ===== src/Query/Answers.antt =====
-- How a map goes through a chain of fallible steps.
use pureq.Query.{Answer, done, refused, out_of_fuel, ◌>>=◌}
use pureq.Query.Compiler.{traverse}
use pureq.Prelude.{◌≡◌, refl, ap, ◌∙◌, Bool, true, false, List, [], ◌∷◌, map, if◌then◌else◌}
use pureq.Prelude.Text.{codes_key}

abbrev pub map_answer {ℓ κ} : {A : Type ℓ} {B : Type κ} → (A → B) → Answer A → Answer B
map_answer f (done a) = done (f a)
map_answer f (refused r) = refused r
map_answer f out_of_fuel = out_of_fuel

pub >>=-map_answer {ℓ κ ι ν} :
    {A : Type ℓ} {A' : Type κ} {B : Type ι} {B' : Type ν} (g : A → A') (h : B → B') (m : Answer A)
    (m' : Answer A') (k : A → Answer B) (k' : A' → Answer B')
    → m' ≡ map_answer g m
    → ((a : A) → k' (g a) ≡ map_answer h (k a))
    → (m' >>= k') ≡ map_answer h (m >>= k)
>>=-map_answer g h (done a) m' k k' e s = ap (λ m. m >>= k') e ∙ s a
>>=-map_answer g h (refused r) m' k k' e s = ap (λ m. m >>= k') e
>>=-map_answer g h out_of_fuel m' k k' e s = ap (λ m. m >>= k') e

pub >>=-map_answer_same {ℓ ι ν} :
    {A : Type ℓ} {B : Type ι} {B' : Type ν} (h : B → B') (m m' : Answer A) (k : A → Answer B)
    (k' : A → Answer B')
    → m' ≡ m
    → ((a : A) → k' a ≡ map_answer h (k a))
    → (m' >>= k') ≡ map_answer h (m >>= k)
>>=-map_answer_same h (done a) m' k k' e s = ap (λ m. m >>= k') e ∙ s a
>>=-map_answer_same h (refused r) m' k k' e s = ap (λ m. m >>= k') e
>>=-map_answer_same h out_of_fuel m' k k' e s = ap (λ m. m >>= k') e

pub traverse-map {ℓ κ ι ν} :
    {A : Type ℓ} {A' : Type κ} {B : Type ι} {B' : Type ν} (g : A → A') (h : B → B')
    (f : A → Answer B) (f' : A' → Answer B') (xs : List A)
    → ((x : A) → f' (g x) ≡ map_answer h (f x))
    → traverse f' (map g xs) ≡ map_answer (map h) (traverse f xs)
traverse-map g h f f' [] e = refl
traverse-map g h f f' (x ∷ xs) e = >>=-map_answer h (map h) (f x) (f' (g x)) _ _ (e x) λ y.
    >>=-map_answer (map h) (map h) (traverse f xs) (traverse f' (map g xs)) _ _
      (traverse-map g h f f' xs e) λ ys. refl

pub if-map {ℓ κ} :
    {A : Type ℓ} {B : Type κ} (g : A → B) (x y : Answer A) (x' y' : Answer B) (b : Bool)
    → x' ≡ map_answer g x
    → y' ≡ map_answer g y
    → (if b then x' else y') ≡ map_answer g (if b then x else y)
if-map g x y x' y' true e e' = e
if-map g x y x' y' false e e' = e'
