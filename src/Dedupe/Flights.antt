-- ===== src/Dedupe/Flights.antt =====
-- One run of `next` for each key, and none that a request awaits is lost.
use pureq.Http.{HttpMethod}
use pureq.Dedupe.{
  signature_of, State, idle, Event, arrives, settles, start, arrive_at, arrive, awaits, finish,
  settle, step, run,
}
use pureq.Prelude.{
  ℕ, ◌≡◌, refl, sym, ap, ◌∙◌, subst, true, false, not, Option, none, some, List, [], ◌∷◌, ◌++◌,
  ◌==◌, number_key, if◌then◌else◌, Key, keep_if, All, All-map, arith, inl, inr, Bool-cases, is_some,
  nat_beq_iff,
}
use pureq.Prelude.JsMap.{
  get, delete, Distinct, set_absent, set-Distinct, delete-Distinct, get-delete_ne,
}

module _ {K : Type 0} ⦃key : Key K⦄ where
  -- the runs that have a key, by their key
  abbrev pub keyed : List (ℕ × Option K) → List (K × ℕ)
  keyed [] = []
  keyed ((flight, none) ∷ fs) = keyed fs
  keyed ((flight, some k) ∷ fs) = (k, flight) ∷ keyed fs

  keyed-append :
      (fs : List (ℕ × Option K)) (flight : ℕ) (k : K)
      → keyed (fs ++ (flight, some k) ∷ []) ≡ keyed fs ++ (k, flight) ∷ []
  keyed-append [] flight k = refl
  keyed-append ((f, none) ∷ fs) flight k = keyed-append fs flight k
  keyed-append ((f, some j) ∷ fs) flight k = ap (◌∷◌ (j, f)) (keyed-append fs flight k)

  keyed-append-none :
      (fs : List (ℕ × Option K)) (flight : ℕ) → keyed (fs ++ (flight, none) ∷ []) ≡ keyed fs
  keyed-append-none [] flight = refl
  keyed-append-none ((f, none) ∷ fs) flight = keyed-append-none fs flight
  keyed-append-none ((f, some j) ∷ fs) flight = ap (◌∷◌ (j, f)) (keyed-append-none fs flight)

  keyed-delete-none :
      (fs : List (ℕ × Option K)) (flight : ℕ)
      → get flight fs ≡ some none
      → keyed (delete flight fs) ≡ keyed fs
  unfolding get delete
  keyed-delete-none [] flight h = refl
  keyed-delete-none ((f, none) ∷ fs) flight h = elim (Bool-cases (f == flight)) [
    | inl p ↦ rw p refl
    | inr p ↦ rw p (keyed-delete-none fs flight (sym (rw p) ∙ h))
  ]
  keyed-delete-none ((f, some j) ∷ fs) flight h = elim (Bool-cases (f == flight)) [
    | inl p ↦
        let here : ◌≡◌ {A = Option (Option K)} (some (some j)) (some none) = sym (rw p) ∙ h in
        absurd cc
    | inr p ↦ rw p (ap (◌∷◌ (j, f)) (keyed-delete-none fs flight (sym (rw p) ∙ h)))
  ]

  get-keyed :
      (fs : List (ℕ × Option K)) (flight : ℕ) (k : K)
      → get flight fs ≡ some (some k)
      → get k (keyed fs) ≡ none
      → ⊥
  unfolding get
  get-keyed [] flight k h e = absurd cc
  get-keyed ((f, none) ∷ fs) flight k h e = elim (Bool-cases (f == flight)) [
    | inl p ↦
        let here : ◌≡◌ {A = Option (Option K)} (some none) (some (some k)) = sym (rw p) ∙ h in
        absurd cc
    | inr p ↦ get-keyed fs flight k (sym (rw p) ∙ h) e
  ]
  get-keyed ((f, some j) ∷ fs) flight k h e = elim (Bool-cases (j == k)) [
    | inl q ↦ let here : some f ≡ none = sym (rw q) ∙ e in absurd cc
    | inr q ↦ elim (Bool-cases (f == flight)) [
      | inl p ↦
          let here : some (some j) ≡ some (some k) = sym (rw p) ∙ h in
          let same = (key.same_iff j k).1 cc in absurd cc
      | inr p ↦ get-keyed fs flight k (sym (rw p) ∙ h) (sym (rw q) ∙ e)
    ]
  ]

  keyed-delete :
      (fs : List (ℕ × Option K)) (flight : ℕ) (k : K)
      → Distinct (keyed fs)
      → get flight fs ≡ some (some k)
      → keyed (delete flight fs) ≡ delete k (keyed fs)
  unfolding get delete
  keyed-delete [] flight k d h = refl
  keyed-delete ((f, none) ∷ fs) flight k d h = elim (Bool-cases (f == flight)) [
    | inl p ↦
        let here : ◌≡◌ {A = Option (Option K)} (some none) (some (some k)) = sym (rw p) ∙ h in
        absurd cc
    | inr p ↦ rw p (keyed-delete fs flight k d (sym (rw p) ∙ h))
  ]
  keyed-delete ((f, some j) ∷ fs) flight k d h = elim (Bool-cases (f == flight)) [
    | inl p ↦
        let here : some (some j) ≡ some (some k) = sym (rw p) ∙ h in
        rw (p, (key.same_iff j k).1 cc) refl
    | inr p ↦
        let later = sym (rw p) ∙ h in
        elim (Bool-cases (j == k)) [
          | inl q ↦ absurd (
              get-keyed fs flight k later
                (subst (λ i. get i (keyed fs) ≡ none) ((key.same_iff j k).0 q) d.0))
          | inr q ↦ rw (p, q) (ap (◌∷◌ (j, f)) (keyed-delete fs flight k d.1 later))
        ]
  ]

abbrev InProgress : {K : Type 0} → List (ℕ × Option K) → ℕ × ℕ → Type 0
InProgress flights w = is_some (get w.1 flights) ≡ true

InProgress-append :
    {K : Type 0} (fs : List (ℕ × Option K)) (t : ℕ) (k : Option K) (w : ℕ × ℕ)
    → InProgress fs w
    → InProgress (fs ++ (t, k) ∷ []) w
unfolding get
InProgress-append [] t k w h = absurd cc
InProgress-append ((f, o) ∷ fs) t k w h =
    elim (f == w.1)
        as (λ b.
          is_some (if b then some o else get w.1 fs) ≡ true
          → is_some (if b then some o else get w.1 (fs ++ (t, k) ∷ [])) ≡ true) [
            | true ↦ λ e. refl
            | false ↦ λ e. InProgress-append fs t k w e
          ]
      h

InProgress-append_last :
    {K : Type 0} (fs : List (ℕ × Option K)) (t u : ℕ) (k : Option K)
    → InProgress (fs ++ (t, k) ∷ []) (u, t)
unfolding get
InProgress-append_last [] t u k = rw ((nat_beq_iff t t).1 refl) refl
InProgress-append_last ((f, o) ∷ fs) t u k =
    elim (f == t) as (λ b. is_some (if b then some o else get t (fs ++ (t, k) ∷ [])) ≡ true) [
      | true ↦ refl
      | false ↦ InProgress-append_last fs t u k
    ]

still_awaited :
    {K : Type 0} (fs : List (ℕ × Option K)) (flight : ℕ) (ws : List (ℕ × ℕ))
    → All (InProgress fs) ws
    → All (InProgress (delete flight fs)) (keep_if (λ w. not (awaits flight w)) ws)
still_awaited fs flight [] h = tt
still_awaited fs flight (w ∷ ws) h = elim (Bool-cases (w.1 == flight)) [
  | inl p ↦ rw p (still_awaited fs flight ws h.1)
  | inr p ↦
      let apart : (flight == w.1) ≡ false =
        ground (arith, nat_beq_iff flight w.1, nat_beq_iff w.1 flight) in
      rw p (rw (get-delete_ne flight w.1 fs apart) h.0, still_awaited fs flight ws h.1)
]

later_run :
    {K : Type 0} (f g : ℕ) (o : Option K) (fs : List (ℕ × Option K))
    → is_some (get f fs) ≡ true
    → is_some (get f ((g, o) ∷ fs)) ≡ true
unfolding get
later_run f g o fs h = elim (g == f) as (λ b. is_some (if b then some o else get f fs) ≡ true) [
  | true ↦ refl
  | false ↦ h
]

keyed-InProgress :
    {K : Type 0} ⦃key : Key K⦄ (fs : List (ℕ × Option K)) (k : K) (f : ℕ)
    → get k (keyed fs) ≡ some f
    → is_some (get f fs) ≡ true
unfolding get
keyed-InProgress [] k f h = absurd cc
keyed-InProgress ((g, none) ∷ fs) k f h = later_run f g none fs (keyed-InProgress fs k f h)
keyed-InProgress ((g, some j) ∷ fs) k f h = elim (Bool-cases (j == k)) [
  | inl p ↦ let here : some g ≡ some f = sym (rw p) ∙ h in rw ((nat_beq_iff g f).1 cc) refl
  | inr p ↦ later_run f g (some j) fs (keyed-InProgress fs k f (sym (rw p) ∙ h))
]

-- The map holds the runs of `next` in progress that have a key, each key once, and whatever is
-- awaited is in progress.
pub record IsValid {K O : Type 0} ⦃key : Key K⦄ (s : State K O) : Type 0 where
  pub coherent : s.inflight ≡ keyed s.flights
  pub distinct : Distinct s.inflight
  pub awaited : All (InProgress s.flights) s.waiting

module _ {K O : Type 0} ⦃key : Key K⦄ where
  start-awaited :
      (k : Option K) (s : State K O)
      → All (InProgress s.flights) s.waiting
      → All (InProgress (start k s).flights) (start k s).waiting
  start-awaited k s h = (
    InProgress-append_last s.flights s.next_ticket s.next_ticket k,
    All-map (InProgress-append s.flights s.next_ticket k) s.waiting h,
  )

  arrive_at-IsValid :
      (k : K) (o : Option ℕ) (s : State K O)
      → get k s.inflight ≡ o
      → IsValid s
      → IsValid (arrive_at k o s)
  unfolding arrive_at
  arrive_at-IsValid k (some flight) s e v = record {
    coherent = v.coherent;
    distinct = v.distinct;
    awaited = (keyed-InProgress s.flights k flight (ap (get k) (sym v.coherent) ∙ e), v.awaited);
  }
  arrive_at-IsValid k none s e v = record {
    coherent =
        set_absent k s.next_ticket s.inflight e
        ∙ ap (λ m. m ++ (k, s.next_ticket) ∷ []) v.coherent
        ∙ sym (keyed-append s.flights s.next_ticket k);
    distinct = set-Distinct k s.next_ticket s.inflight v.distinct;
    awaited = start-awaited (some k) s v.awaited;
  }

  arrive-IsValid : (o : Option K) (s : State K O) → IsValid s → IsValid (arrive o s)
  unfolding arrive
  arrive-IsValid none s v = record {
    coherent = v.coherent ∙ sym (keyed-append-none s.flights s.next_ticket);
    distinct = v.distinct;
    awaited = start-awaited none s v.awaited;
  }
  arrive-IsValid (some k) s v = arrive_at-IsValid k (get k s.inflight) s refl v

  finish-IsValid :
      (flight : ℕ) (outcome : O) (o : Option (Option K)) (s : State K O)
      → get flight s.flights ≡ o
      → IsValid s
      → IsValid (finish flight outcome o s)
  unfolding finish
  finish-IsValid flight outcome none s e v = v
  finish-IsValid flight outcome (some none) s e v = record {
    coherent = v.coherent ∙ sym (keyed-delete-none s.flights flight e);
    distinct = v.distinct;
    awaited = still_awaited s.flights flight s.waiting v.awaited;
  }
  finish-IsValid flight outcome (some (some k)) s e v = record {
    coherent =
        ap (delete k) v.coherent
        ∙ sym (keyed-delete s.flights flight k (subst Distinct v.coherent v.distinct) e);
    distinct = delete-Distinct k s.inflight v.distinct;
    awaited = still_awaited s.flights flight s.waiting v.awaited;
  }

  module _ (methods : List HttpMethod) where
    step-IsValid : (e : Event K O) (s : State K O) → IsValid s → IsValid (step methods e s)
    unfolding step settle
    step-IsValid (arrives method built) s v = arrive-IsValid (signature_of methods method built) s v
    step-IsValid (settles flight outcome) s v =
        finish-IsValid flight outcome (get flight s.flights) s refl v

    run_from-IsValid :
        (es : List (Event K O)) (s : State K O) → IsValid s → IsValid (run methods es s)
    unfolding run
    run_from-IsValid [] s v = v
    run_from-IsValid (e ∷ es) s v = run_from-IsValid es (step methods e s) (step-IsValid e s v)

    -- Whatever requests arrive and runs of `next` end, in whatever order: the map holds exactly the
    -- runs in progress that have a key, no key has two, and every request that waits awaits a run in
    -- progress.
    pub run-IsValid : (es : List (Event K O)) → IsValid (run methods es idle)
    run-IsValid es =
        run_from-IsValid es idle (record { coherent = refl; distinct = tt; awaited = tt })
