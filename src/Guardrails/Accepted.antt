-- ===== src/Guardrails/Accepted.antt =====
-- Which combinations of policies guardrails.ts accepts.
use mathlib.Core.Bool.{true≢false}
use pureq.Prelude.{
  ◌≤◌, ◌≡◌, refl, sym, ◌∙◌, ◌↔◌, false, ◌&&◌, Option, none, List, [], ◌∷◌, ltb, length, keep_if,
  some_of, All, arith, or_else, Bool-cases, inl, inr,
}
use pureq.Guardrails.{
  PolicyMetadata, is_retry, is_timeout, is_deadline, is_default_timeout, policies_of, check_retries,
  check_policies, validate_policy_guardrails,
}

abbrev pub Modest : PolicyMetadata → Type 0
Modest p = or_else p.max_retries 0 ≤ 10

check_retries_iff : (ps : List PolicyMetadata) → (check_retries ps ≡ none) ↔ All Modest ps
unfolding check_retries
check_retries_iff [] = ((λ h. tt), (λ h. refl))
check_retries_iff (p ∷ ps) = let rec = check_retries_iff ps in ground arith

one_timeout :
    (ps : List PolicyMetadata)
    → length ps ≤ 1
    → (some_of is_deadline ps && some_of is_default_timeout ps) ≡ false
one_timeout [] h = refl
one_timeout (p ∷ []) h = ground arith
one_timeout (p ∷ q ∷ ps) h = absurd (omega arith)

check_policies_iff :
    (retries timeouts : List PolicyMetadata)
    → (check_policies retries timeouts ≡ none)
      ↔ ((length retries ≤ 1) × (length timeouts ≤ 1) × All Modest retries)
unfolding check_policies
check_policies_iff retries timeouts =
    let few = check_retries_iff retries in
    let single = one_timeout timeouts in
    elim (Bool-cases (ltb 1 (length retries))) [
      | inl p ↦ rw p ((λ h. absurd (cc)), (λ h. absurd (ground arith)))
      | inr p ↦
          elim (Bool-cases (some_of is_deadline timeouts && some_of is_default_timeout timeouts)) [
            | inl q ↦
                rw p (rw q ((λ h. absurd (cc)), (λ h. absurd (true≢false (sym q ∙ single h.1)))))
            | inr q ↦ elim (Bool-cases (ltb 1 (length timeouts))) [
              | inl r ↦ rw p (rw q (rw r ((λ h. absurd (cc)), (λ h. absurd (ground arith)))))
              | inr r ↦
                  rw p
                    (rw q (rw r ((λ h. (ground arith, ground arith, few.0 h)), (λ h. few.1 h.2))))
            ]
          ]
    ]

-- A client may be made exactly if it has at most one retry policy and at most one timeout policy,
-- and no retry policy with more than ten retries.
pub validate_policy_guardrails_iff :
    (ms : List (Option PolicyMetadata))
    → (validate_policy_guardrails ms ≡ none) ↔ (
        (length (keep_if is_retry (policies_of ms)) ≤ 1)
        × (length (keep_if is_timeout (policies_of ms)) ≤ 1)
        × All Modest (keep_if is_retry (policies_of ms)))
unfolding validate_policy_guardrails
validate_policy_guardrails_iff ms =
    check_policies_iff (keep_if is_retry (policies_of ms)) (keep_if is_timeout (policies_of ms))
