-- ===== src/Guardrails.antt =====
-- packages/pureq/src/policy/guardrails.ts: the check on the policies that a client combines. A
-- middleware is what it carries of a policy; names other than the two of the check are one.
pub mod Accepted
mod Examples
use pureq.Prelude.{
  ℕ, Bool, true, false, ◌&&◌, Option, none, some, List, [], ◌∷◌, ltb, if◌then◌else◌, length,
  keep_if, some_of,
}

pub data PolicyName : Type 0 where
  deadline default_timeout other_name : PolicyName

pub data PolicyKind : Type 0 where
  timeout retry hedge cache concurrency validation auth fallback : PolicyKind

pub record PolicyMetadata : Type 0 where
  pub name : PolicyName
  pub kind : PolicyKind
  pub max_retries : Option ℕ
  pub max_concurrent : Option ℕ

abbrev pub is_retry : PolicyMetadata → Bool
is_retry p = elim p.kind [ retry ↦ true | _ ↦ false ]

abbrev pub is_timeout : PolicyMetadata → Bool
is_timeout p = elim p.kind [ timeout ↦ true | _ ↦ false ]

abbrev pub is_deadline : PolicyMetadata → Bool
is_deadline p = elim p.name [ deadline ↦ true | _ ↦ false ]

abbrev pub is_default_timeout : PolicyMetadata → Bool
is_default_timeout p = elim p.name [ default_timeout ↦ true | _ ↦ false ]

-- The policies of the middlewares that carry one.
pub policies_of : List (Option PolicyMetadata) → List PolicyMetadata
policies_of [] = []
policies_of (none ∷ ms) = policies_of ms
policies_of (some p ∷ ms) = p ∷ policies_of ms

abbrev pub exceeds_ten : PolicyMetadata → Bool
exceeds_ten p = elim p.max_retries [ none ↦ false | some n ↦ ltb 10 n ]

-- What is thrown.
pub data GuardrailError : Type 0 where
  multiple_retries deadline_and_default multiple_timeouts too_many_retries : GuardrailError

pub check_retries : List PolicyMetadata → Option GuardrailError
check_retries [] = none
check_retries (p ∷ ps) = if exceeds_ten p then some too_many_retries else check_retries ps

pub check_policies : List PolicyMetadata → List PolicyMetadata → Option GuardrailError
check_policies retries timeouts =
    if ltb 1 (length retries)
    then some multiple_retries
    else if some_of is_deadline timeouts && some_of is_default_timeout timeouts
    then some deadline_and_default
    else if ltb 1 (length timeouts)
    then some multiple_timeouts
    else check_retries retries

-- `none` is a client that may be made.
pub validate_policy_guardrails : List (Option PolicyMetadata) → Option GuardrailError
validate_policy_guardrails middlewares =
    let policies = policies_of middlewares in
    check_policies (keep_if is_retry policies) (keep_if is_timeout policies)
