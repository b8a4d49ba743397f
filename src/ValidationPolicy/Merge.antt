-- ===== src/ValidationPolicy/Merge.antt =====
-- What the policy that policy/merge.ts makes of two policies has of each.
use pureq.Prelude.{
  Option, ◌==◌, ◌≡◌, refl, ap, ◌∙◌, false, ◌||◌, none, some, List, [], ◌∷◌, ◌++◌, String, text_key,
  map, or_else, Bool-cases, inl, inr, arith, All,
}
use pureq.Prelude.JsMap.{get}
use pureq.ValidationPolicy.{
  unredacted, raise_error, GuardrailRule, ValidationPolicy, contains, forbidden_object_keys, dedupe,
  sanitize_record, clone_rule, clone_guardrails, normalize_validation_policy,
  merge_validation_policy,
}
use pureq.ValidationPolicy.Scope.{
  NoDuplicates, contains-append, contains-dedupe, dedupe-NoDuplicates,
}

abbrev pub Option_map : {A B : Type 0} → (A → B) → Option A → Option B
Option_map f none = none
Option_map f (some a) = some (f a)

module _ {V : Type 0} where
  -- The scope has what the scope of either policy has, each element once.
  pub merge-scope :
      (base next : ValidationPolicy V) (key : String)
      → NoDuplicates (merge_validation_policy base next).scope
        × (contains key (merge_validation_policy base next).scope
            ≡ (contains key (or_else base.scope []) || contains key (or_else next.scope [])))
  unfolding merge_validation_policy normalize_validation_policy
  merge-scope base next key =
      let b = or_else base.scope [] in
      let n = or_else next.scope [] in
      let whole = contains-dedupe key (dedupe b ++ dedupe n) in
      let split = contains-append key (dedupe b) (dedupe n) in
      let left = contains-dedupe key b in
      let right = contains-dedupe key n in
      (dedupe-NoDuplicates (dedupe b ++ dedupe n), ground arith)

  -- no parameter of the rule has a key that could reach a prototype
  abbrev pub IsSafe : GuardrailRule V → Type 0
  IsSafe r = elim r.params [
    | none ↦ Unit
    | some p ↦ All (λ e. contains e.0 forbidden_object_keys ≡ false) p
  ]

  sanitize_record-safe :
      (p : List (String × V))
      → All (λ e. contains e.0 forbidden_object_keys ≡ false) (sanitize_record p)
  unfolding sanitize_record
  sanitize_record-safe [] = tt
  sanitize_record-safe ((k, v) ∷ p) = elim (Bool-cases (contains k forbidden_object_keys)) [
    | inl bad ↦ rw bad (sanitize_record-safe p)
    | inr good ↦ rw good (good, sanitize_record-safe p)
  ]

  clone_rule-IsSafe : (r : GuardrailRule V) → IsSafe (clone_rule r)
  unfolding clone_rule
  clone_rule-IsSafe r =
      elim r.params
        as (λ o.
          IsSafe
            (record r { params = elim o [ none ↦ none | some p ↦ some (sanitize_record p) ] })) [
              | none ↦ tt
              | some p ↦ sanitize_record-safe p
            ]

  clone_guardrails-IsSafe : (rules : List (GuardrailRule V)) → All IsSafe (clone_guardrails rules)
  unfolding clone_guardrails
  clone_guardrails-IsSafe [] = tt
  clone_guardrails-IsSafe (r ∷ rules) = (clone_rule-IsSafe r, clone_guardrails-IsSafe rules)

  abbrev pub names : List (GuardrailRule V) → List String
  names rules = map (λ r. r.name) rules

  names-append : (xs ys : List (GuardrailRule V)) → names (xs ++ ys) ≡ names xs ++ names ys
  names-append [] ys = refl
  names-append (x ∷ xs) ys = ap (◌∷◌ x.name) (names-append xs ys)

  names-clone_guardrails :
      (rules : List (GuardrailRule V)) → names (clone_guardrails rules) ≡ names rules
  unfolding clone_guardrails clone_rule
  names-clone_guardrails [] = refl
  names-clone_guardrails (r ∷ rules) = ap (◌∷◌ r.name) (names-clone_guardrails rules)

  -- What the rules have under a key, and which of them have parameters.
  abbrev pub values_of : String → List (GuardrailRule V) → List (Option (Option V))
  values_of key rules = map (λ r. Option_map (get key) r.params) rules

  get-sanitize_record :
      (key : String) (p : List (String × V))
      → contains key forbidden_object_keys ≡ false
      → get key (sanitize_record p) ≡ get key p
  unfolding sanitize_record get
  get-sanitize_record key [] h = refl
  get-sanitize_record key ((k, v) ∷ p) h = elim (Bool-cases (k == key)) [
    | inl same ↦
        let good : contains k forbidden_object_keys ≡ false =
          ap (λ j. contains j forbidden_object_keys) ((text_key.same_iff k key).0 same) ∙ h in
        rw good (rw same refl)
    | inr other ↦ elim (Bool-cases (contains k forbidden_object_keys)) [
      | inl bad ↦ rw (bad, other) (get-sanitize_record key p h)
      | inr good ↦ rw good (rw other (get-sanitize_record key p h))
    ]
  ]

  values_of-append :
      (key : String) (xs ys : List (GuardrailRule V))
      → values_of key (xs ++ ys) ≡ values_of key xs ++ values_of key ys
  values_of-append key [] ys = refl
  values_of-append key (x ∷ xs) ys =
      ap (◌∷◌ (Option_map (get key) x.params)) (values_of-append key xs ys)

  values_of-clone_guardrails :
      (key : String) (rules : List (GuardrailRule V))
      → contains key forbidden_object_keys ≡ false
      → values_of key (clone_guardrails rules) ≡ values_of key rules
  unfolding clone_guardrails clone_rule
  values_of-clone_guardrails key [] h = refl
  values_of-clone_guardrails key (r ∷ rules) h =
      ap (λ o. o ∷ values_of key (clone_guardrails rules)) (one_rule r.params)
      ∙ ap (◌∷◌ (Option_map (get key) r.params)) (values_of-clone_guardrails key rules h)
    where
      one_rule :
          (params : Option (List (String × V)))
          → Option_map (get key) (elim params [ none ↦ none | some p ↦ some (sanitize_record p) ])
            ≡ Option_map (get key) params
      one_rule none = refl
      one_rule (some p) = ap some (get-sanitize_record key p h)

  -- The rules of both, the first policy's in front, each with what it has under every key that
  -- could not reach a prototype, and with no parameter whose key could.
  pub merge-guardrails :
      (base next : ValidationPolicy V)
      → (names (merge_validation_policy base next).guardrails
          ≡ names (or_else base.guardrails []) ++ names (or_else next.guardrails []))
        × ((key : String)
            → contains key forbidden_object_keys ≡ false
            → values_of key (merge_validation_policy base next).guardrails
              ≡ values_of key (or_else base.guardrails [])
                ++ values_of key (or_else next.guardrails []))
        × All IsSafe (merge_validation_policy base next).guardrails
  unfolding merge_validation_policy normalize_validation_policy
  merge-guardrails base next =
      let b = or_else base.guardrails [] in
      let n = or_else next.guardrails [] in
      (
        names-clone_guardrails (clone_guardrails b ++ clone_guardrails n)
            ∙ names-append (clone_guardrails b) (clone_guardrails n)
            ∙ ap (λ l. l ++ names (clone_guardrails n)) (names-clone_guardrails b)
            ∙ ap (λ l. names b ++ l) (names-clone_guardrails n),
        λ key h.
            values_of-clone_guardrails key (clone_guardrails b ++ clone_guardrails n) h
            ∙ values_of-append key (clone_guardrails b) (clone_guardrails n)
            ∙ ap (λ l. l ++ values_of key (clone_guardrails n)) (values_of-clone_guardrails key b h)
            ∙ ap (λ l. values_of key b ++ l) (values_of-clone_guardrails key n h),
        clone_guardrails-IsSafe (clone_guardrails b ++ clone_guardrails n),
      )

  -- What the second policy does not say is filled in by the defaults, not by the first policy.
  pub merge_forgets_base :
      (base next : ValidationPolicy V)
      → next.redact ≡ none
      → next.on_denied ≡ none
      → ((merge_validation_policy base next).redact ≡ unredacted)
        × ((merge_validation_policy base next).on_denied ≡ raise_error)
  unfolding merge_validation_policy normalize_validation_policy
  merge_forgets_base base next r d = (rw r refl, rw d refl)
