-- ===== src/Query/Marks.antt =====
-- How often a placeholder stands in a text, and that no name brings one in.
use pureq.Query.{
  is_mark, Language, Refusal, invalid_identifier, disallowed_operator, disallowed_function, Answer,
  done, refused, out_of_fuel, ◌>>=◌, check,
}
use pureq.Query.Names.{
  is_control, is_identifier, is_word, escape, includes, allowed_operators, allowed_functions,
  quote_identifier, validate_identifier, validate_operator, validate_function_name,
}
use pureq.Query.Compiler.{
  Compiled, join, traverse, comma, placeholders, all_sql, all_params, with_table,
}
use pureq.Prelude.{
  ℕ, ◌+◌, ◌≡◌, refl, sym, ◌∙◌, subst, Bool, true, false, not, Option, none, some, List, [], ◌∷◌,
  ◌++◌, map, length, length-append, count_if, count_if-append, some_of, All, nat_beq_iff, arith,
  ◌==◌, Bool-cases, inl, inr,
}
use pureq.Prelude.Text.{Text, codes, codes_key, same_codes_iff}

-- What holds of the value of an answer, if it has one.
abbrev pub Holds {ℓ κ} : {A : Type ℓ} → (A → Type κ) → Answer A → Type κ
Holds P (done a) = P a
Holds P (refused r) = Unit
Holds P out_of_fuel = Unit

pub >>=-Holds {ℓ κ ι ν} :
    {A : Type ℓ} {B : Type κ} (P : A → Type ι) (Q : B → Type ν) (m : Answer A) (f : A → Answer B)
    → Holds P m
    → ((a : A) → P a → Holds Q (f a))
    → Holds Q (m >>= f)
>>=-Holds P Q (done a) f h k = k a h
>>=-Holds P Q (refused r) f h k = tt
>>=-Holds P Q out_of_fuel f h k = tt

pub traverse-Holds {ℓ κ ι} :
    {A : Type ℓ} {B : Type κ} (P : B → Type ι) (f : A → Answer B) (xs : List A)
    → ((x : A) → Holds P (f x))
    → Holds (All P) (traverse f xs)
traverse-Holds P f [] h = tt
traverse-Holds P f (x ∷ xs) h =
    >>=-Holds P (All P) (f x) (λ y. traverse f xs >>= λ ys. done (y ∷ ys)) (h x)
      λ y hy.
        >>=-Holds (All P) (All P) (traverse f xs) (λ ys. done (y ∷ ys)) (traverse-Holds P f xs h)
          λ ys hys. (hy, hys)

abbrev pub marks : Text → ℕ
marks t = count_if is_mark t

abbrev pub Plain : Text → Type 0
Plain t = marks t ≡ 0

abbrev pub Balanced : {V : Type 0} → Compiled V → Type 0
Balanced c = marks c.0 ≡ length c.1

abbrev pub total_marks : List Text → ℕ
total_marks [] = 0
total_marks (t ∷ ts) = marks t + total_marks ts

pub marks-join :
    (separator : Text) (ts : List Text)
    → Plain separator
    → marks (join separator ts) ≡ total_marks ts
marks-join separator [] h = refl
marks-join separator (t ∷ []) h = omega arith
marks-join separator (t ∷ u ∷ ts) h = omega (
  arith,
  count_if-append is_mark (t ++ separator) (join separator (u ∷ ts)),
  count_if-append is_mark t separator,
  marks-join separator (u ∷ ts) h,
)

pub total_marks-all_sql :
    {V : Type 0} (cs : List (Compiled V))
    → All Balanced cs
    → total_marks (all_sql cs) ≡ length (all_params cs)
total_marks-all_sql [] h = refl
total_marks-all_sql (c ∷ cs) h =
    omega (arith, length-append c.1 (all_params cs), total_marks-all_sql cs h.1, h.0)

pub total_marks-Plain : (ts : List Text) → All Plain ts → total_marks ts ≡ 0
total_marks-Plain [] h = refl
total_marks-Plain (t ∷ ts) h = omega (arith, h.0, total_marks-Plain ts h.1)

pub total_marks-codes {ℓ} :
    {A : Type ℓ} (xs : List A) → total_marks (map (λ x. codes "?") xs) ≡ length xs
total_marks-codes [] = refl
total_marks-codes (x ∷ xs) = omega (arith, total_marks-codes xs)

pub marks-placeholders {ℓ} : {A : Type ℓ} (xs : List A) → marks (placeholders xs) ≡ length xs
marks-placeholders xs = marks-join comma (map (λ x. codes "?") xs) refl ∙ total_marks-codes xs

not_word-mark : (c : ℕ) → is_mark c ≡ true → is_word c ≡ false
not_word-mark c h = let e = (nat_beq_iff c 63).0 h in rw e refl

escape-Plain : (t : Text) → some_of (λ d. not (is_word d)) t ≡ false → Plain (escape t)
escape-Plain [] h = refl
escape-Plain (c ∷ cs) h = ground (arith, not_word-mark c, escape-Plain cs)

is_identifier-Plain : (t : Text) → is_identifier t ≡ true → Plain (escape t)
is_identifier-Plain [] h = absurd cc
is_identifier-Plain (c ∷ cs) h = ground (arith, not_word-mark c, escape-Plain cs)

pub includes-Plain :
    (names : List Text) (t : Text) → All Plain names → includes names t ≡ true → Plain t
includes-Plain [] t h e = absurd cc
includes-Plain (n ∷ names) t h e = elim (Bool-cases (n == t)) [
  | inl p ↦ subst Plain ((same_codes_iff n t).0 p) h.0
  | inr p ↦ includes-Plain names t h.1 (sym (rw p refl) ∙ e)
]

pub check-Holds {ℓ κ} :
    {B : Type ℓ} (Q : B → Type κ) (b : Bool) (r : Refusal) (f : Unit {0} → Answer B)
    → (b ≡ true → Holds Q (f tt))
    → Holds Q (check b r >>= f)
check-Holds Q true r f h = h refl
check-Holds Q false r f h = tt

check-true : (b : Bool) (r : Refusal) → Holds (λ u. b ≡ true) (check b r)
check-true true r = refl
check-true false r = tt

pub names-Plain : (names : List Text) → total_marks names ≡ 0 → All Plain names
names-Plain [] h = tt
names-Plain (n ∷ names) h = (omega arith, names-Plain names (omega arith))

module _ (l : Language) where
  validate_identifier-form :
      (name : Text) → Holds (λ u. is_identifier name ≡ true) (validate_identifier l name)
  unfolding validate_identifier
  validate_identifier-form name =
      check-Holds (λ u. is_identifier name ≡ true) (not (some_of is_control name))
        invalid_identifier _
        λ h.
          check-Holds (λ u. is_identifier name ≡ true) (l.normalize name == name) invalid_identifier
            _
            λ same.
              let e = (same_codes_iff (l.normalize name) name).0 same in
              subst
                (λ t.
                  Holds (λ u. is_identifier name ≡ true)
                    (check (is_identifier t) invalid_identifier))
                (sym e) (check-true (is_identifier name) invalid_identifier)

  pub quote_identifier-Plain : (name : Text) → Holds Plain (quote_identifier l name)
  unfolding quote_identifier
  quote_identifier-Plain name =
      >>=-Holds (λ u. is_identifier name ≡ true) Plain (validate_identifier l name) _
        (validate_identifier-form name)
        λ u h.
          omega
            (arith, count_if-append is_mark (escape name) (codes "\""), is_identifier-Plain name h)

  pub validate_operator-Plain : (o : Text) → Holds Plain (validate_operator l o)
  unfolding validate_operator
  validate_operator-Plain o =
      check-Holds Plain (includes allowed_operators (l.upper o)) disallowed_operator _
        λ h. includes-Plain allowed_operators (l.upper o) (names-Plain allowed_operators refl) h

  pub with_table-Plain :
      (col : Text) (table : Option Text) → Plain col → Holds Plain (with_table l col table)
  with_table-Plain col none h = h
  with_table-Plain col (some table) h =
      >>=-Holds Plain Plain (quote_identifier l table) _ (quote_identifier-Plain table)
        λ t k. grind (arith, count_if-append)

  pub validate_function_name-Plain : (name : Text) → Holds Plain (validate_function_name l name)
  unfolding validate_function_name
  validate_function_name-Plain name =
      check-Holds Plain (includes allowed_functions (l.upper name)) disallowed_function _
        λ h. includes-Plain allowed_functions (l.upper name) (names-Plain allowed_functions refl) h
