-- ===== src/OfflineQueue/Removal.antt =====
-- Removing queued requests of offlineQueue.ts by their id, one after another.
use pureq.Prelude.{
  ℕ, zero, suc, ◌≡◌, ◌≢◌, refl, ap, sym, subst, ◌∙◌, Bool, true, false, not, ◌&&◌, ◌||◌, List, [],
  ◌∷◌, ◌++◌, map, All, All-zip, Bool-cases, inl, inr, ◌==◌, number_key, ==_refl, ==_ne, keep_if,
  some_of, take, drop, arith, if◌then◌else◌,
}
use pureq.OfflineQueue.{Queued, QueueStorage, remove_all}

module _ {B : Type 0} where
  -- no two of the queued requests have the same id
  abbrev pub DistinctIds : List (Queued B) → Type 0
  DistinctIds [] = Unit
  DistinctIds (x ∷ xs) = All (λ y. y.id ≢ x.id) xs × DistinctIds xs

  -- one of `xs` passes the test and has the id of `x`
  abbrev pub hits : (Queued B → Bool) → List (Queued B) → Queued B → Bool
  hits q xs x = some_of (λ y. q y && x.id == y.id) xs

  pub keep_if-keep_if :
      (p q : Queued B → Bool) (xs : List (Queued B))
      → keep_if q (keep_if p xs) ≡ keep_if (λ x. p x && q x) xs
  keep_if-keep_if p q [] = refl
  keep_if-keep_if p q (x ∷ xs) = let rec = keep_if-keep_if p q xs in ground (arith, rec)

  pub keep_if-congr :
      (p q : Queued B → Bool) (xs : List (Queued B))
      → All (λ x. p x ≡ q x) xs
      → keep_if p xs ≡ keep_if q xs
  keep_if-congr p q [] h = refl
  keep_if-congr p q (x ∷ xs) h =
      let rec = keep_if-congr p q xs h.1 in let here = h.0 in ground (arith, rec, here)

  pub hits-other :
      (q : Queued B → Bool) (xs : List (Queued B)) (x : Queued B)
      → All (λ y. y.id ≢ x.id) xs
      → hits q xs x ≡ false
  hits-other q [] x h = refl
  hits-other q (y ∷ ys) x h =
      let rec = hits-other q ys x h.1 in
      let here = ==_ne x.id y.id (λ e. h.0 (sym e)) in ground arith

  -- Where the ids are distinct, it is the request itself that passes the test.
  pub hits-distinct :
      (q : Queued B → Bool) (xs : List (Queued B))
      → DistinctIds xs
      → All (λ x. hits q xs x ≡ q x) xs
  hits-distinct q [] h = tt
  hits-distinct q (x ∷ xs) h =
      let none_else = hits-other q xs x h.0 in
      let itself = ==_refl x.id in
      (
        ground arith,
        All-zip (λ y differs rec. let other = ==_ne y.id x.id differs in ground arith) xs h.0
            (hits-distinct q xs h.1),
      )

  pub some_of-keep_if :
      (p q : Queued B → Bool) (xs : List (Queued B))
      → some_of q (keep_if p xs) ≡ some_of (λ x. p x && q x) xs
  some_of-keep_if p q [] = refl
  some_of-keep_if p q (x ∷ xs) = let rec = some_of-keep_if p q xs in ground arith

module _ {B : Type 0} (st : QueueStorage B) where
  -- after a removal by id of those that pass the test, the others are left
  abbrev pub Removes : (Queued B → Bool) → List (Queued B) → st.State → st.State → Type 0
  Removes q xs s s' = st.get_all s' ≡ keep_if (λ x. not (hits q xs x)) (st.get_all s)

  pub keep_if-true : (xs : List (Queued B)) → keep_if (λ x. true) xs ≡ xs
  keep_if-true [] = refl
  keep_if-true (x ∷ xs) = ap (◌∷◌ x) (keep_if-true xs)

  pub All-everywhere :
      (P : Queued B → Type 0) (f : (x : Queued B) → P x) (xs : List (Queued B)) → All P xs
  All-everywhere P f [] = tt
  All-everywhere P f (x ∷ xs) = (f x, All-everywhere P f xs)

  -- One step of a loop that removes the head where it passes the test.
  pub Removes-cons :
      (q : Queued B → Bool) (y : Queued B) (ys : List (Queued B)) (s s' : st.State)
      → q y ≡ true
      → Removes q ys (st.remove y.id s) s'
      → Removes q (y ∷ ys) s s'
  Removes-cons q y ys s s' h k =
      k
      ∙ ap (keep_if (λ x. not (hits q ys x))) (st.get_all-remove y.id s)
      ∙ keep_if-keep_if (λ x. not (x.id == y.id)) (λ x. not (hits q ys x)) (st.get_all s)
      ∙ keep_if-congr (λ x. not (x.id == y.id) && not (hits q ys x)) (λ x. not (hits q (y ∷ ys) x))
          (st.get_all s) (All-everywhere _ (λ x. ground arith) (st.get_all s))

  pub Removes-skip :
      (q : Queued B → Bool) (y : Queued B) (ys : List (Queued B)) (s s' : st.State)
      → q y ≡ false
      → Removes q ys s s'
      → Removes q (y ∷ ys) s s'
  Removes-skip q y ys s s' h k =
      k
      ∙ keep_if-congr (λ x. not (hits q ys x)) (λ x. not (hits q (y ∷ ys) x)) (st.get_all s)
          (All-everywhere _ (λ x. ground arith) (st.get_all s))

  pub remove_all-Removes :
      (q : Queued B → Bool) (xs : List (Queued B)) (s : st.State)
      → Removes q xs s (remove_all st (map (λ x. x.id) (keep_if q xs)) s)
  unfolding remove_all
  remove_all-Removes q [] s = sym (keep_if-true (st.get_all s))
  remove_all-Removes q (y ∷ ys) s =
      let result = λ (b : Bool).
        remove_all st (map (λ x. x.id) (if b then y ∷ keep_if q ys else keep_if q ys)) s in
      elim (Bool-cases (q y)) [
        | inl p ↦
            subst (λ b. Removes q (y ∷ ys) s (result b)) (sym p)
              (Removes-cons q y ys s _ p (remove_all-Removes q ys (st.remove y.id s)))
        | inr p ↦
            subst (λ b. Removes q (y ∷ ys) s (result b)) (sym p)
              (Removes-skip q y ys s _ p (remove_all-Removes q ys s))
      ]

  pub hits-append :
      (q : Queued B → Bool) (xs ys : List (Queued B)) (x : Queued B)
      → hits q (xs ++ ys) x ≡ (hits q xs x || hits q ys x)
  hits-append q [] ys x = refl
  hits-append q (y ∷ xs) ys x = let rec = hits-append q xs ys x in ground arith

  pub Removes-append :
      (q : Queued B → Bool) (xs ys : List (Queued B)) (s s' s'' : st.State)
      → Removes q xs s s'
      → Removes q ys s' s''
      → Removes q (xs ++ ys) s s''
  Removes-append q xs ys s s' s'' h k =
      k
      ∙ ap (keep_if (λ x. not (hits q ys x))) h
      ∙ keep_if-keep_if (λ x. not (hits q xs x)) (λ x. not (hits q ys x)) (st.get_all s)
      ∙ keep_if-congr (λ x. not (hits q xs x) && not (hits q ys x)) (λ x. not (hits q (xs ++ ys) x))
          (st.get_all s)
          (All-everywhere _ (λ x. let e = hits-append q xs ys x in ground arith) (st.get_all s))

  pub take-append-drop : (n : ℕ) (xs : List (Queued B)) → take n xs ++ drop n xs ≡ xs
  take-append-drop zero xs = refl
  take-append-drop (suc n) [] = refl
  take-append-drop (suc n) (x ∷ xs) = ap (◌∷◌ x) (take-append-drop n xs)
