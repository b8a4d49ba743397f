-- ===== src/Revocation/Buckets.antt =====
-- One bucket of revocation/index.ts against a ledger that forgets nothing.
use pureq.Prelude.JsMap.{
  get, delete, Distinct, get-set, get-delete_ne, get-delete_self, delete-Distinct, set-Distinct,
}
use pureq.Prelude.{
  ℕ, ◌≤◌, ◌≡◌, refl, sym, subst, ap, ◌∙◌, ◌⊎◌, inl, inr, Bool, true, false, not, Option, none, some,
  [], ◌∷◌, String, ◌==◌, if◌then◌else◌, text_key, Bool-cases, Option-cases, arith,
}
use pureq.Revocation.{
  RevocationBucket, is_expired, clear_bucket, revoke, check_key, is_bucket_revoked, truthy,
}

-- what the last revocation of each key said
abbrev pub Ledger : Type 0
Ledger = String → Option (Option ℕ)

abbrev pub note : Ledger → String → Option ℕ → Ledger
note f key expires_at j = if key == j then some expires_at else f j

-- A key counts as revoked from its last revocation on until that expires.
abbrev pub listed : Ledger → Option String → ℕ → Bool
listed f none now = false
listed f (some key) now = elim (f key) [
  | none ↦ false
  | some expires_at ↦ not (is_expired expires_at now)
]

-- The bucket says the same as the ledger, or has forgotten an entry that had expired by `now`.
abbrev pub Agrees : RevocationBucket → Ledger → ℕ → String → Type 0
Agrees b f now key =
    (get key b ≡ f key)
    ⊎ ((get key b ≡ none) × ((v : Option ℕ) × (f key ≡ some v) × (is_expired v now ≡ true)))

abbrev pub Mirrors : RevocationBucket → Ledger → ℕ → Type 0
Mirrors b f now = Distinct b × ((key : String) → Agrees b f now key)

is_expired_mono : (v : Option ℕ) (s t : ℕ) → s ≤ t → is_expired v s ≡ true → is_expired v t ≡ true
unfolding is_expired
is_expired_mono none s t h p = p
is_expired_mono (some e) s t h p = ground arith

-- what clearing leaves of a value
abbrev unexpired : ℕ → Option (Option ℕ) → Option (Option ℕ)
unexpired now none = none
unexpired now (some v) = if is_expired v now then none else some v

get-clear_bucket-none :
    (key : String) (b : RevocationBucket) (now : ℕ)
    → get key b ≡ none
    → get key (clear_bucket b now) ≡ none
unfolding get clear_bucket
get-clear_bucket-none key [] now h = refl
get-clear_bucket-none key ((j, v) ∷ b) now h = ground (arith, get-clear_bucket-none key b now)

get-clear_bucket :
    (key : String) (b : RevocationBucket) (now : ℕ)
    → Distinct b
    → get key (clear_bucket b now) ≡ unexpired now (get key b)
unfolding get clear_bucket
get-clear_bucket key [] now d = refl
get-clear_bucket key ((j, v) ∷ b) now d =
    let rec = get-clear_bucket key b now d.1 in
    let gone = get-clear_bucket-none j b now d.0 in
    elim (Bool-cases (j == key)) [
      | inl same ↦
          let absent : get key b ≡ none =
            subst (λ i. get i b ≡ none) ((text_key.same_iff j key).0 same) d.0 in
          let here = get-clear_bucket-none key b now absent in ground arith
      | inr other ↦ ground arith
    ]

clear_bucket-Distinct :
    (b : RevocationBucket) (now : ℕ) → Distinct b → Distinct (clear_bucket b now)
unfolding get clear_bucket
clear_bucket-Distinct [] now d = tt
clear_bucket-Distinct ((j, v) ∷ b) now d =
    let gone = get-clear_bucket-none j b now d.0 in
    let rec = clear_bucket-Distinct b now d.1 in
    elim (is_expired v now)
      as (λ x. Distinct (if x then clear_bucket b now else (j, v) ∷ clear_bucket b now)) [
        | true ↦ rec
        | false ↦ (gone, rec)
      ]

-- Clearing at a later time loses nothing that still counts.
pub clear_bucket-Mirrors :
    (b : RevocationBucket) (f : Ledger) (before now : ℕ)
    → before ≤ now
    → Mirrors b f before
    → Mirrors (clear_bucket b now) f now
clear_bucket-Mirrors b f before now h m = (
  clear_bucket-Distinct b now m.0,
  λ key.
      let cleared = get-clear_bucket key b now m.0 in
      elim (m.1 key) [
        | inr (absent, (v, p, old)) ↦
            inr (cleared ∙ rw absent refl, (v, p, is_expired_mono v before now h old))
        | inl same ↦ elim (Option-cases (f key)) [
          | inl p ↦ inl (cleared ∙ ap (unexpired now) (same ∙ p) ∙ sym p)
          | inr (v, p) ↦ elim (Bool-cases (is_expired v now)) [
            | inl old ↦ inr (cleared ∙ ap (unexpired now) (same ∙ p) ∙ rw old refl, (v, p, old))
            | inr young ↦ inl (cleared ∙ ap (unexpired now) (same ∙ p) ∙ rw young refl ∙ sym p)
          ]
        ]
      ],
)

pub revoke-Mirrors :
    (b : RevocationBucket) (f : Ledger) (now : ℕ) (key : String) (expires_at : Option ℕ)
    → Mirrors b f now
    → Mirrors (revoke b key expires_at) (note f key expires_at) now
unfolding revoke
revoke-Mirrors b f now key t m = (
  set-Distinct key t b m.0,
  λ j.
      let view = get-set key j t b in
      elim (Bool-cases (key == j)) [
        | inl mine ↦ inl (view ∙ rw mine refl)
        | inr other ↦ elim (m.1 j) [
          | inl same ↦ inl (view ∙ rw other same)
          | inr (absent, (v, p, old)) ↦ inr (view ∙ rw other absent, (v, rw other p, old))
        ]
      ],
)

delete-Mirrors :
    (b : RevocationBucket) (f : Ledger) (now : ℕ) (key : String) (v : Option ℕ)
    → f key ≡ some v
    → is_expired v now ≡ true
    → Mirrors b f now
    → Mirrors (delete key b) f now
delete-Mirrors b f now key v p old m = (
  delete-Distinct key b m.0,
  λ j. elim (Bool-cases (key == j)) [
    | inl mine ↦
        subst (λ i. Agrees (delete key b) f now i) ((text_key.same_iff key j).0 mine)
          (inr (get-delete_self key b m.0, (v, p, old)))
    | inr other ↦
        let view = get-delete_ne key j b other in
        elim (m.1 j) [
          | inl same ↦ inl (view ∙ same)
          | inr (absent, rest) ↦ inr (view ∙ absent, rest)
        ]
  ],
)

check_key-Mirrors :
    (b : RevocationBucket) (f : Ledger) (now : ℕ) (key : Option String)
    → Mirrors b f now
    → let result = check_key key now b in (result.0 ≡ listed f key now) × Mirrors result.1 f now
unfolding check_key
check_key-Mirrors b f now none m = (refl, m)
check_key-Mirrors b f now (some key) m = elim (Option-cases (get key b)) [
  | inl p ↦ elim (m.1 key) [
    | inl same ↦
        let unknown : f key ≡ none = sym same ∙ p in
        rw (check_key, p) (rw (listed, unknown) refl, m)
    | inr (absent, (v, q, old)) ↦ rw (check_key, p) (rw (listed, q) (rw old refl), m)
  ]
  | inr (v, p) ↦ elim (m.1 key) [
    | inr (absent, rest) ↦ absurd (cc)
    | inl same ↦
        let known : f key ≡ some v = sym same ∙ p in
        elim (Bool-cases (is_expired v now)) [
          | inl old ↦
              rw (check_key, p)
                (rw old
                  (rw (listed, known) (rw old refl), delete-Mirrors b f now key v known old m))
          | inr young ↦ rw (check_key, p) (rw young (rw (listed, known) (rw young refl), m))
        ]
  ]
]

pub is_bucket_revoked-Mirrors :
    (b : RevocationBucket) (f : Ledger) (now : ℕ) (key : Option String)
    → Mirrors b f now
    → let result = is_bucket_revoked b key now in
      (result.0 ≡ listed f (truthy key) now) × Mirrors result.1 f now
unfolding is_bucket_revoked
is_bucket_revoked-Mirrors b f now key m = check_key-Mirrors b f now (truthy key) m
