-- ===== src/Rpc/Codec/Growing.antt =====
-- The slab of codec.ts: what `ensure` keeps and reserves, and what the writes behind it leave there.
use mathlib.Core.List.{append_assoc, append-nil}
use pureq.Rpc.Codec.{
  Slab, max_slab, store, ensure, store_byte, store_bytes, set_data, put, slice, then_write,
}
use pureq.Prelude.{
  ℕ, zero, suc, ◌+◌, ◌*◌, ◌<◌, ◌≤◌, max, ◌≡◌, ◌⊎◌, refl, sym, ap, ◌∙◌, inl, inr, Option, none, some,
  List, [], ◌∷◌, ◌++◌, ltb, true, false, length, length-append, take, take-append_length, drop,
  arith, Bool-cases,
}

-- half of the largest slab
abbrev pub half_slab : ℕ
half_slab = 64 * 1024 * 1024

-- An array of a length whose bytes up to the offset are the ones given.
abbrev pub full : ℕ → List ℕ → Slab
full n cells = record { capacity = n; cells = cells; offset = length cells }

-- From an array that is full up to its offset, a writer gives one that has its bytes behind those, or
-- is refused, and that only if they do not fit into half of the largest slab.
abbrev pub Writes : List ℕ → (Slab → Option Slab) → Type 0
Writes chunk w =
    (n : ℕ) (cells : List ℕ)
    → length cells ≤ n
    → ((m : ℕ) × (length (cells ++ chunk) ≤ m)
        × (w (full n cells) ≡ some (full m (cells ++ chunk))))
      ⊎ ((w (full n cells) ≡ none) × (half_slab < length cells + length chunk))

store-end : (cells bs : List ℕ) → store (length cells) bs cells ≡ cells ++ bs
unfolding store
store-end [] [] = refl
store-end [] (b ∷ bs) = ap (◌++◌ (b ∷ bs)) (drop-nil (length (b ∷ bs))) ∙ append-nil (b ∷ bs)
  where
    nil : List ℕ
    nil = []

    drop-nil : (n : ℕ) → drop n [] ≡ nil
    drop-nil zero = refl
    drop-nil (suc n) = refl
store-end (x ∷ cells) bs = ap (◌∷◌ x) (store-end cells bs)

full-append :
    (n : ℕ) (cells bs stored : List ℕ) (offset : ℕ)
    → stored ≡ cells ++ bs
    → offset ≡ length cells + length bs
    → record { capacity = n; cells = stored; offset = offset } ≡ full n (cells ++ bs)
full-append n cells bs stored offset e k =
    let count = length-append cells bs in
    let last : offset ≡ length (cells ++ bs) = omega arith in
    ap (λ c. record { capacity = n; cells = c; offset = offset }) e
    ∙ ap (λ o. record { capacity = n; cells = cells ++ bs; offset = o }) last

store_bytes-full :
    (bs : List ℕ) (n : ℕ) (cells : List ℕ)
    → length cells + length bs ≤ n
    → store_bytes bs (full n cells) ≡ full n (cells ++ bs)
unfolding store_bytes store_byte
store_bytes-full [] n cells h = ap (full n) (sym (append-nil cells))
store_bytes-full (b ∷ bs) n cells h =
    let room : ltb (length cells) n ≡ true = ground arith in
    let count = length-append cells (b ∷ []) in
    let one : store_byte b (full n cells) ≡ full n (cells ++ b ∷ []) =
      rw room (full-append n cells (b ∷ []) _ _ (store-end cells (b ∷ [])) refl) in
    ap (store_bytes bs) one
    ∙ store_bytes-full bs n (cells ++ b ∷ []) (omega arith)
    ∙ ap (full n) (append_assoc cells (b ∷ []) bs)

set_data-full :
    (bs : List ℕ) (n : ℕ) (cells : List ℕ)
    → length cells + length bs ≤ n
    → set_data bs (full n cells) ≡ some (full n (cells ++ bs))
unfolding set_data
set_data-full bs n cells h =
    let room : ltb n (length cells + length bs) ≡ false = ground arith in
    rw room (ap some (full-append n cells bs _ _ (store-end cells bs) refl))

pub slice-full : (n : ℕ) (cells : List ℕ) → length cells ≤ n → slice (full n cells) ≡ cells
unfolding slice
slice-full n cells h =
    let within : ltb n (length cells) ≡ false = ground arith in
    rw within (ap (take (length cells)) (store-end cells []) ∙ take-append_length cells [])

ensure-full :
    (size n : ℕ) (cells : List ℕ)
    → length cells ≤ n
    → ((m : ℕ) × (length cells + size ≤ m) × (ensure size (full n cells) ≡ some (full m cells)))
      ⊎ ((ensure size (full n cells) ≡ none) × (half_slab < length cells + size))
unfolding ensure
ensure-full size n cells h =
    let grown = max (n * 2) (length cells + size) in
    elim (Bool-cases (ltb n (length cells + size))) [
      | inr fits ↦ inl (n, ground arith, rw fits refl)
      | inl grows ↦ elim (Bool-cases (ltb max_slab grown)) [
        | inr q ↦ inl (
          grown,
          ground arith,
          rw grows (rw q (ap (λ c. some (record (full grown cells) { cells = c })) (copied cells))),
        )
        | inl q ↦ inr (rw grows (rw q refl), ground arith)
      ]
    ]
  where
    copied : (cells : List ℕ) → store 0 cells [] ≡ cells
    copied cells = store-end [] cells

-- The bytes behind the head that are set at once
abbrev pub data_bytes : Option (List ℕ) → List ℕ
data_bytes none = []
data_bytes (some block) = block

put-full :
    (head : List ℕ) (block : Option (List ℕ)) (size n m : ℕ) (cells : List ℕ)
    → length cells + (length head + length (data_bytes block)) ≤ m
    → ensure size (full n cells) ≡ some (full m cells)
    → put size head block (full n cells) ≡ some (full m (cells ++ (head ++ data_bytes block)))
unfolding put
put-full head none size n m cells h e =
    rw (put, e)
      (ap some (
        store_bytes-full head m cells (omega arith)
        ∙ ap (λ c. full m (cells ++ c)) (sym (append-nil head))))
put-full head (some block) size n m cells h e =
    let count = length-append cells head in
    rw (put, e)
      (ap (set_data block) (store_bytes-full head m cells (omega arith))
        ∙ set_data-full block m (cells ++ head) (omega arith)
        ∙ ap (λ c. some (full m c)) (append_assoc cells head block))

put_refused :
    (head : List ℕ) (block : Option (List ℕ)) (size : ℕ) (s : Slab)
    → ensure size s ≡ none
    → put size head block s ≡ none
unfolding put
put_refused head none size s e = rw (put, e) refl
put_refused head (some block) size s e = rw (put, e) refl

pub put-Writes :
    (size : ℕ) (head : List ℕ) (block : Option (List ℕ))
    → size ≡ length head + length (data_bytes block)
    → Writes (head ++ data_bytes block) (put size head block)
put-Writes size head block e n cells h =
    let count = length-append head (data_bytes block) in
    let whole = length-append cells (head ++ data_bytes block) in
    elim (ensure-full size n cells h) [
      | inl (m, fits, p) ↦ inl (m, omega arith, put-full head block size n m cells (omega arith) p)
      | inr (p, big) ↦ inr (put_refused head block size (full n cells) p, omega arith)
    ]

pub nothing-Writes : Writes [] some
nothing-Writes n cells h =
    inl
      (n, omega (arith, length-append cells []), ap (λ c. some (full n c)) (sym (append-nil cells)))

pub then_write-Writes :
    (xs ys : List ℕ) (w k : Slab → Option Slab)
    → Writes xs w
    → Writes ys k
    → Writes (xs ++ ys) (λ s. then_write (w s) k)
then_write-Writes xs ys w k hw hk n cells h =
    let both = length-append xs ys in
    elim (hw n cells h) [
      | inr (p, big) ↦ inr (rw p refl, omega arith)
      | inl (m, fits, p) ↦
          let first = length-append cells xs in
          elim (hk m (cells ++ xs) fits) [
            | inr (p', big) ↦ inr (rw p p', omega arith)
            | inl (m', fits', p') ↦
                let all = ap length (append_assoc cells xs ys) in
                inl (
                  m',
                  omega arith,
                  rw p (p' ∙ ap (λ c. some (full m' c)) (append_assoc cells xs ys)),
                )
          ]
    ]
