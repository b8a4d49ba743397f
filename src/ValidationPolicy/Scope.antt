-- ===== src/ValidationPolicy/Scope.antt =====
-- The sets of policy/merge.ts: lists without duplicates, in the order of the first occurrences.
use pureq.Prelude.{
  ◌≡◌, refl, false, ◌||◌, List, [], ◌∷◌, ◌++◌, String, ◌==◌, text_key, Bool-cases, inl, inr, arith,
  ==_refl, subst,
}
use pureq.ValidationPolicy.{contains, add, add_all, dedupe}

-- no element comes twice
abbrev pub NoDuplicates : List String → Type 0
NoDuplicates [] = Unit
NoDuplicates (x ∷ xs) = (contains x xs ≡ false) × NoDuplicates xs

pub contains-append :
    (key : String) (xs ys : List String)
    → contains key (xs ++ ys) ≡ (contains key xs || contains key ys)
contains-append key [] ys = refl
contains-append key (x ∷ xs) ys = let rec = contains-append key xs ys in ground arith

contains-add :
    (key x : String) (set : List String) → contains key (add x set) ≡ (contains key set || x == key)
contains-add key x set = elim (Bool-cases (x == key)) [
  | inl p ↦
      let split = contains-append x set (x ∷ []) in
      let itself = ==_refl x in
      subst (λ k. contains k (add x set) ≡ (contains k set || x == k))
        ((text_key.same_iff x key).0 p) (ground arith)
  | inr p ↦ let split = contains-append key set (x ∷ []) in ground arith
]

contains-add_all :
    (key : String) (set xs : List String)
    → contains key (add_all set xs) ≡ (contains key set || contains key xs)
unfolding add_all
contains-add_all key set [] = ground arith
contains-add_all key set (x ∷ xs) =
    let rec = contains-add_all key (add x set) xs in
    let here = contains-add key x set in ground arith

pub contains-dedupe : (key : String) (xs : List String) → contains key (dedupe xs) ≡ contains key xs
unfolding dedupe
contains-dedupe key xs = contains-add_all key [] xs

append-NoDuplicates :
    (x : String) (xs : List String)
    → contains x xs ≡ false
    → NoDuplicates xs
    → NoDuplicates (xs ++ x ∷ [])
append-NoDuplicates x [] h d = (refl, tt)
append-NoDuplicates x (y ∷ ys) h d =
    let split = contains-append y ys (x ∷ []) in
    let there : contains x ys ≡ false = ground arith in
    let first = d.0 in
    (
      ground (arith, text_key.same_iff x y, text_key.same_iff y x),
      append-NoDuplicates x ys there d.1,
    )

add_all-NoDuplicates : (set xs : List String) → NoDuplicates set → NoDuplicates (add_all set xs)
unfolding add_all
add_all-NoDuplicates set [] d = d
add_all-NoDuplicates set (x ∷ xs) d = elim (Bool-cases (contains x set)) [
  | inl p ↦ rw p (add_all-NoDuplicates set xs d)
  | inr p ↦ rw p (add_all-NoDuplicates (set ++ x ∷ []) xs (append-NoDuplicates x set p d))
]

pub dedupe-NoDuplicates : (xs : List String) → NoDuplicates (dedupe xs)
unfolding dedupe
dedupe-NoDuplicates xs = add_all-NoDuplicates [] xs tt
