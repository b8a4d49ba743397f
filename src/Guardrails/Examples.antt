-- ===== src/Guardrails/Examples.antt =====
-- Tests of guardrails.ts, and inputs at which its properties apply.
use pureq.Prelude.{◌≤◌, ◌≡◌, refl, ◌↔◌, Option, none, some, [], ◌∷◌, length, keep_if, All}
use pureq.Guardrails.{
  PolicyMetadata, deadline, default_timeout, other_name, timeout, retry, is_retry, is_timeout,
  policies_of, deadline_and_default, check_policies, validate_policy_guardrails,
}
use pureq.Guardrails.Accepted.{Modest, validate_policy_guardrails_iff}

abbrev thrice : Option PolicyMetadata
thrice =
    some (record { name = other_name; kind = retry; max_retries = some 3; max_concurrent = none })

abbrev overall : Option PolicyMetadata
overall =
    some (record { name = deadline; kind = timeout; max_retries = none; max_concurrent = none })

abbrev each : Option PolicyMetadata
each =
    some
      (record { name = default_timeout; kind = timeout; max_retries = none; max_concurrent = none })

validate_policy_guardrails-both :
    validate_policy_guardrails (thrice ∷ overall ∷ each ∷ []) ≡ some deadline_and_default
unfolding validate_policy_guardrails check_policies policies_of
validate_policy_guardrails-both = refl

validate_policy_guardrails_iff_example :
    (validate_policy_guardrails (thrice ∷ none ∷ overall ∷ []) ≡ none) ↔ (
      (length (keep_if is_retry (policies_of (thrice ∷ none ∷ overall ∷ []))) ≤ 1)
      × (length (keep_if is_timeout (policies_of (thrice ∷ none ∷ overall ∷ []))) ≤ 1)
      × All Modest (keep_if is_retry (policies_of (thrice ∷ none ∷ overall ∷ []))))
validate_policy_guardrails_iff_example =
    validate_policy_guardrails_iff (thrice ∷ none ∷ overall ∷ [])
