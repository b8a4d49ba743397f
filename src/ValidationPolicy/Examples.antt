-- ===== src/ValidationPolicy/Examples.antt =====
-- Tests of policy/merge.ts, and inputs at which its properties apply.
use pureq.Prelude.{◌≡◌, refl, true, none, some, [], ◌∷◌, String, All, or_else, false, ◌++◌}
use pureq.ValidationPolicy.{
  mask, unredacted, drop_value, raise_error, ValidationPolicy, add_all, dedupe, sanitize_record,
  contains, forbidden_object_keys, clone_rule, clone_guardrails, normalize_validation_policy,
  merge_validation_policy,
}
use pureq.ValidationPolicy.Merge.{merge-guardrails, names, values_of, IsSafe}

abbrev masked : ValidationPolicy String
masked = record {
  redact = some mask;
  pii = none;
  scope = some ("read" ∷ "audit" ∷ []);
  guardrails =
      some (record { name = "limit"; params = some (("__proto__", "x") ∷ ("max", "5") ∷ []) } ∷ []);
  on_denied = some drop_value;
}

abbrev personal : ValidationPolicy String
personal = record {
  redact = none;
  pii = some true;
  scope = some ("audit" ∷ []);
  guardrails = none;
  on_denied = none;
}

-- The second policy asks for no redaction of its own, and the mask of the first is gone.
merge_masked-personal : merge_validation_policy masked personal ≡ record {
  redact = unredacted;
  pii = true;
  scope = "read" ∷ "audit" ∷ [];
  guardrails = record { name = "limit"; params = some (("max", "5") ∷ []) } ∷ [];
  on_denied = raise_error;
}
unfolding merge_validation_policy normalize_validation_policy dedupe add_all clone_guardrails
    clone_rule sanitize_record
merge_masked-personal = refl

merge-guardrails_example :
    (names (merge_validation_policy masked personal).guardrails ≡ "limit" ∷ [])
    × ((key : String)
        → contains key forbidden_object_keys ≡ false
        → values_of key (merge_validation_policy masked personal).guardrails
          ≡ values_of key (or_else masked.guardrails [])
            ++ values_of key (or_else personal.guardrails []))
    × All IsSafe (merge_validation_policy masked personal).guardrails
merge-guardrails_example = merge-guardrails masked personal
