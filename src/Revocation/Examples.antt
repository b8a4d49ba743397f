-- ===== src/Revocation/Examples.antt =====
-- Tests of the registry of revocation/index.ts, and inputs at which its properties apply.
use pureq.Prelude.JsMap.{get, set, delete}
use pureq.Prelude.{◌≡◌, refl, Bool, true, false, none, some, List, [], ◌∷◌, String, arith}
use pureq.Revocation.{
  Claims, Operation, revoke_token, revoke_subject, asks, clears, new_registry, answers, operate,
  revoke, is_revoked, check_claims, check_key, is_bucket_revoked, clear_bucket, clear_expired,
  clear, is_expired,
}
use pureq.Revocation.Refinement.{answers_lem, expected_answers, blank}
use pureq.Revocation.Backend.{BucketName}

abbrev alice : Claims
alice = record { jti = some "t1"; sid = none; sub = some "alice" }

abbrev day : List Operation
day =
    revoke_token "t1" (some 100)
    ∷ asks alice 50
    ∷ asks alice 100
    ∷ revoke_subject "alice" none
    ∷ asks alice 200
    ∷ clears
    ∷ asks alice 300
    ∷ []

answers-day :
    answers day new_registry
    ≡ none ∷ some true ∷ some false ∷ none ∷ some true ∷ none ∷ some false ∷ []
unfolding answers operate revoke is_revoked check_claims check_key is_bucket_revoked clear_bucket
    clear_expired clear is_expired get set delete
answers-day = refl

answers_lem_example : answers day new_registry ≡ expected_answers day blank
answers_lem_example = answers_lem day (
  omega arith,
  (omega arith, (omega arith, (omega arith, (omega arith, (omega arith, (omega arith, tt)))))),
)

abbrev all_known : BucketName → String → Bool
all_known bucket key = true
