-- ===== src/Prelude/JsMap.antt =====
-- The `Map` of the language: an association list in insertion order. `set` on a key that is
-- present keeps its place, `delete` followed by `set` moves it to the end.
use Prim.Native.Nat.{suc}
use mathlib.Core.Path.{◌≡◌, refl, sym, subst, ◌∙◌}
use mathlib.Core.Logic.{inl, inr}
use mathlib.Core.Bool.{true, false}
use mathlib.Core.List.{List, [], ◌∷◌, ◌++◌}
use mathlib.Core.Option.{Option, none, some}
use native.Mathlib.Omega.{arith}
use pureq.Prelude.Tests.{Key, ◌==◌, if◌then◌else◌, is_some, Bool-cases}
use pureq.Prelude.Lists.{length, All}

module _ {ℓ} {V : Type ℓ} {K : Type 0} ⦃key : Key K⦄ where
  unfoldable pub get : K → List (K × V) → Option V
  get k [] = none
  get k ((j, v) ∷ m) = if j == k then some v else get k m

  unfoldable pub set : K → V → List (K × V) → List (K × V)
  set k v [] = (k, v) ∷ []
  set k v ((j, w) ∷ m) = if j == k then (j, v) ∷ m else (j, w) ∷ set k v m

  unfoldable pub delete : K → List (K × V) → List (K × V)
  delete k [] = []
  delete k ((j, w) ∷ m) = if j == k then m else (j, w) ∷ delete k m

  -- A key stands once.
  abbrev pub Distinct : List (K × V) → Type ℓ
  Distinct [] = Unit
  Distinct ((j, w) ∷ m) = (get j m ≡ none) × Distinct m

  pub get-set :
      (k j : K) (v : V) (m : List (K × V))
      → get j (set k v m) ≡ (if k == j then some v else get j m)
  unfolding get set
  get-set k j v [] = refl
  get-set k j v ((i, w) ∷ m) =
      ground (arith, key.same_iff k j, key.same_iff i k, key.same_iff i j, get-set k j v m)

  pub get-delete_ne : (k j : K) (m : List (K × V)) → (k == j) ≡ false → get j (delete k m) ≡ get j m
  unfolding get delete
  get-delete_ne k j [] h = refl
  get-delete_ne k j ((i, w) ∷ m) h =
      ground (arith, key.same_iff k j, key.same_iff i k, key.same_iff i j, get-delete_ne k j m h)

  pub get-delete_self : (k : K) (m : List (K × V)) → Distinct m → get k (delete k m) ≡ none
  unfolding get delete
  get-delete_self k [] h = refl
  get-delete_self k ((i, w) ∷ m) h = ground (arith, key.same_iff i k, get-delete_self k m h.1)

  pub delete-Distinct : (k : K) (m : List (K × V)) → Distinct m → Distinct (delete k m)
  unfolding delete
  delete-Distinct k [] h = tt
  delete-Distinct k ((i, w) ∷ m) h =
      ground
        (arith, delete-Distinct k m h.1, get-delete_ne k i m, key.same_iff i k, key.same_iff k i)

  pub set-Distinct : (k : K) (v : V) (m : List (K × V)) → Distinct m → Distinct (set k v m)
  unfolding get set
  set-Distinct k v [] h = (refl, tt)
  set-Distinct k v ((i, w) ∷ m) h =
      ground (arith, set-Distinct k v m h.1, get-set k i v m, key.same_iff i k, key.same_iff k i)

  pub length-set :
      (k : K) (v : V) (m : List (K × V))
      → length (set k v m) ≡ (if is_some (get k m) then length m else suc (length m))
  unfolding get set
  length-set k v [] = refl
  length-set k v ((i, w) ∷ m) = ground (arith, length-set k v m)

  pub length-delete :
      (k : K) (m : List (K × V))
      → (if is_some (get k m) then suc (length (delete k m)) else length (delete k m)) ≡ length m
  unfolding get delete
  length-delete k [] = refl
  length-delete k ((i, w) ∷ m) = ground (arith, length-delete k m)

  -- A key that is absent is put at the end.
  pub set_absent :
      (k : K) (v : V) (m : List (K × V)) → get k m ≡ none → set k v m ≡ m ++ (k, v) ∷ []
  unfolding get set
  set_absent k v [] h = refl
  set_absent k v ((i, w) ∷ m) h = ground (arith, set_absent k v m)

  -- To put a key at the end of the map, with a value.
  pub length-set-delete :
      (k : K) (v : V) (m : List (K × V))
      → Distinct m
      → length (set k v (delete k m)) ≡ (if is_some (get k m) then length m else suc (length m))
  length-set-delete k v m d =
      ground (arith, length-set k v (delete k m), length-delete k m, get-delete_self k m d)

  -- what holds of every key with its value
  abbrev pub AllEntries {κ} : (K → V → Type κ) → List (K × V) → Type κ
  AllEntries P m = All (λ e. P e.0 e.1) m

  module _ {κ} (P : K → V → Type κ) where
    pub get-AllEntries :
        (k : K) (v : V) (m : List (K × V)) → AllEntries P m → get k m ≡ some v → P k v
    unfolding get
    get-AllEntries k v [] h e = absurd (cc)
    get-AllEntries k v ((j, w) ∷ m) h e = elim (Bool-cases (j == k)) [
      | inl p ↦
          let here : some w ≡ some v = sym (rw p) ∙ e in
          subst (λ i. P i v) ((key.same_iff j k).0 p) (subst (P j) (cc) h.0)
      | inr p ↦ let rest : get k m ≡ some v = sym (rw p) ∙ e in get-AllEntries k v m h.1 rest
    ]

    pub set-AllEntries :
        (k : K) (v : V) (m : List (K × V)) → AllEntries P m → P k v → AllEntries P (set k v m)
    unfolding set
    set-AllEntries k v [] h pv = (pv, tt)
    set-AllEntries k v ((j, w) ∷ m) h pv = elim (Bool-cases (j == k)) [
      | inl p ↦ rw p (subst (λ i. P i v) (sym ((key.same_iff j k).0 p)) pv, h.1)
      | inr p ↦ rw p (h.0, set-AllEntries k v m h.1 pv)
    ]

    pub delete-AllEntries : (k : K) (m : List (K × V)) → AllEntries P m → AllEntries P (delete k m)
    unfolding delete
    delete-AllEntries k [] h = tt
    delete-AllEntries k ((j, w) ∷ m) h =
        elim (j == k) as (λ b. AllEntries P (if b then m else (j, w) ∷ delete k m)) [
          | true ↦ h.1
          | false ↦ (h.0, delete-AllEntries k m h.1)
        ]
