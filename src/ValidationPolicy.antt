-- ===== src/ValidationPolicy.antt =====
-- packages/validation/src/policy/merge.ts and types.ts: the policy that a schema carries, its
-- normal form, and the policy that two of them make. `V` is the type of a rule's parameter.
pub mod Scope
pub mod Merge
mod Examples
use pureq.Prelude.{
  Bool, true, false, not, ◌||◌, Option, none, some, List, [], ◌∷◌, ◌++◌, String, ◌==◌,
  if◌then◌else◌, text_key, map, keep_if, some_of, or_else,
}

pub data Redact : Type 0 where
  mask hide unredacted : Redact

pub data OnDenied : Type 0 where
  drop_value raise_error : OnDenied

pub record GuardrailRule (V : Type 0) : Type 0 where
  pub name : String
  pub params : Option (List (String × V))

pub record ValidationPolicy (V : Type 0) : Type 0 where
  pub redact : Option Redact
  pub pii : Option Bool
  pub scope : Option (List String)
  pub guardrails : Option (List (GuardrailRule V))
  pub on_denied : Option OnDenied

-- Required<ValidationPolicy>
pub record FullPolicy (V : Type 0) : Type 0 where
  pub redact : Redact
  pub pii : Bool
  pub scope : List String
  pub guardrails : List (GuardrailRule V)
  pub on_denied : OnDenied

-- `includes` and `Set.has`
abbrev pub contains : String → List String → Bool
contains key xs = some_of (λ x. x == key) xs

abbrev pub forbidden_object_keys : List String
forbidden_object_keys = "__proto__" ∷ "constructor" ∷ "prototype" ∷ []

-- `Set.add`
abbrev pub add : String → List String → List String
add x set = if contains x set then set else set ++ x ∷ []

pub add_all : List String → List String → List String
add_all set [] = set
add_all set (x ∷ xs) = add_all (add x set) xs

-- `[...new Set(items)]`
pub dedupe : List String → List String
dedupe items = add_all [] items

module _ {V : Type 0} where
  pub sanitize_record : List (String × V) → List (String × V)
  sanitize_record source = keep_if (λ e. not (contains e.0 forbidden_object_keys)) source

  pub clone_rule : GuardrailRule V → GuardrailRule V
  clone_rule r = record r {
    params = elim r.params [ none ↦ none | some p ↦ some (sanitize_record p) ];
  }

  pub clone_guardrails : List (GuardrailRule V) → List (GuardrailRule V)
  clone_guardrails rules = map clone_rule rules

  -- with DEFAULT_VALIDATION_POLICY filled in
  pub normalize_validation_policy : ValidationPolicy V → FullPolicy V
  normalize_validation_policy p = record {
    redact = or_else p.redact unredacted;
    pii = or_else p.pii false;
    scope = dedupe (or_else p.scope []);
    guardrails = clone_guardrails (or_else p.guardrails []);
    on_denied = or_else p.on_denied raise_error;
  }

  -- Both operands of the `??` of the source are always there, so the left one is taken.
  pub merge_validation_policy : ValidationPolicy V → ValidationPolicy V → FullPolicy V
  merge_validation_policy base next =
      let b = normalize_validation_policy base in
      let n = normalize_validation_policy next in
      record {
        redact = n.redact;
        pii = b.pii || n.pii;
        scope = dedupe (b.scope ++ n.scope);
        guardrails = clone_guardrails (b.guardrails ++ n.guardrails);
        on_denied = n.on_denied;
      }
