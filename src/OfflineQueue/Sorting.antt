-- ===== src/OfflineQueue/Sorting.antt =====
-- The order in which the pending requests of offlineQueue.ts are replayed.
use mathlib.Core.List.{Permᴰ}
use mathlib.Core.List.Permᴰ
use pureq.Prelude.Int.{◌≤ℤ◌}
use pureq.Prelude.{
  ◌≤◌, ◌≡◌, refl, ap, sym, subst, ◌∙◌, inl, inr, Bool, true, false, ◌||◌, List, [], ◌∷◌, All,
  All-map, some_of, arith, Bool-cases, if◌then◌else◌,
}
use pureq.OfflineQueue.{Queued, priority_of, not_after, insert_sorted, sort_pending}

module _ {B : Type 0} where
  -- `a` may be replayed ahead of `b`: its priority is no lower, and it is no younger where the
  -- priorities are the same.
  abbrev pub Before : Queued B → Queued B → Type 0
  Before a b =
      (priority_of b ≤ℤ priority_of a)
      × (priority_of a ≤ℤ priority_of b → a.queued_at ≤ b.queued_at)

  abbrev pub Ordered : List (Queued B) → Type 0
  Ordered [] = Unit
  Ordered (x ∷ xs) = All (Before x) xs × Ordered xs

  not_after→Before : (a b : Queued B) → not_after a b ≡ true → Before a b
  not_after→Before a b h = ground arith

  not_after-false : (a b : Queued B) → not_after a b ≡ false → Before b a
  not_after-false a b h = ground arith

  Before-trans : (a b c : Queued B) → Before a b → Before b c → Before a c
  Before-trans a b c h k = ground arith

  All-insert_sorted :
      (P : Queued B → Type 0) (x : Queued B) (ys : List (Queued B))
      → P x
      → All P ys
      → All P (insert_sorted x ys)
  unfolding insert_sorted
  All-insert_sorted P x [] px h = (px, tt)
  All-insert_sorted P x (y ∷ ys) px h =
      elim (not_after x y) as (λ b. All P (if b then x ∷ y ∷ ys else y ∷ insert_sorted x ys)) [
        | true ↦ (px, h)
        | false ↦ (h.0, All-insert_sorted P x ys px h.1)
      ]

  insert_sorted-Ordered :
      (x : Queued B) (ys : List (Queued B)) → Ordered ys → Ordered (insert_sorted x ys)
  unfolding insert_sorted
  insert_sorted-Ordered x [] h = (tt, tt)
  insert_sorted-Ordered x (y ∷ ys) h = elim (Bool-cases (not_after x y)) [
    | inl p ↦
        let first = not_after→Before x y p in
        let rest = All-map (λ z k. Before-trans x y z first k) ys h.0 in
        subst (λ b. Ordered (if b then x ∷ y ∷ ys else y ∷ insert_sorted x ys)) (sym p)
          ((first, rest), h)
    | inr p ↦
        subst (λ b. Ordered (if b then x ∷ y ∷ ys else y ∷ insert_sorted x ys)) (sym p)
          (
            All-insert_sorted (Before y) x ys (not_after-false x y p) h.0,
            insert_sorted-Ordered x ys h.1,
          )
  ]

  sort_pending-Ordered : (xs : List (Queued B)) → Ordered (sort_pending xs)
  unfolding sort_pending
  sort_pending-Ordered [] = tt
  sort_pending-Ordered (x ∷ xs) =
      insert_sorted-Ordered x (sort_pending xs) (sort_pending-Ordered xs)

  insert_sorted-Perm : (x : Queued B) (ys : List (Queued B)) → Permᴰ (insert_sorted x ys) (x ∷ ys)
  unfolding insert_sorted
  insert_sorted-Perm x [] = Permᴰ.refl (x ∷ [])
  insert_sorted-Perm x (y ∷ ys) =
      let rec = insert_sorted-Perm x ys in
      elim (not_after x y)
        as (λ b. Permᴰ (if b then x ∷ y ∷ ys else y ∷ insert_sorted x ys) (x ∷ y ∷ ys)) [
          | true ↦ Permᴰ.refl (x ∷ y ∷ ys)
          | false ↦ Permᴰ.trans (Permᴰ.cons refl rec) (Permᴰ.swap refl refl)
        ]

  sort_pending-Perm : (xs : List (Queued B)) → Permᴰ (sort_pending xs) xs
  unfolding sort_pending
  sort_pending-Perm [] = Permᴰ.nil
  sort_pending-Perm (x ∷ xs) =
      Permᴰ.trans (insert_sorted-Perm x (sort_pending xs)) (Permᴰ.cons refl (sort_pending-Perm xs))

  -- The pending requests are replayed in an order in which each one may go ahead of all behind it,
  -- by its priority and among equals by its age; sorting loses, adds and doubles none.
  pub sort_pending-sorts :
      (xs : List (Queued B)) → Ordered (sort_pending xs) × Permᴰ (sort_pending xs) xs
  sort_pending-sorts xs = (sort_pending-Ordered xs, sort_pending-Perm xs)

  some_of-insert_sorted :
      (p : Queued B → Bool) (x : Queued B) (ys : List (Queued B))
      → some_of p (insert_sorted x ys) ≡ some_of p (x ∷ ys)
  unfolding insert_sorted
  some_of-insert_sorted p x [] = refl
  some_of-insert_sorted p x (y ∷ ys) = let rec = some_of-insert_sorted p x ys in ground arith

  pub some_of-sort_pending :
      (p : Queued B → Bool) (xs : List (Queued B)) → some_of p (sort_pending xs) ≡ some_of p xs
  unfolding sort_pending
  some_of-sort_pending p [] = refl
  some_of-sort_pending p (x ∷ xs) =
      some_of-insert_sorted p x (sort_pending xs) ∙ ap (λ r. p x || r) (some_of-sort_pending p xs)
