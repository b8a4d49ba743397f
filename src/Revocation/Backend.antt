-- ===== src/Revocation/Backend.antt =====
-- The registry of revocation/index.ts over a backend, whose `has` may answer with a promise.
use pureq.Prelude.{
  ◌≡◌, Bool, true, false, not, ◌||◌, Option, none, some, String, arith, if◌then◌else◌, is_some,
}
use pureq.Revocation.{Claims, truthy}

-- A value of the backend: a boolean, or the promise of one.
pub data Eventual : Type 0 where
  boolean promise : Bool → Eventual

-- How `||` and `if` read it: a promise is an object.
abbrev pub is_truthy : Eventual → Bool
is_truthy (boolean b) = b
is_truthy (promise b) = true

abbrev or_value : Eventual → Eventual → Eventual
or_value a b = if is_truthy a then a else b

abbrev is_boolean : Eventual → Bool
is_boolean (boolean b) = true
is_boolean (promise b) = false

pub data BucketName : Type 0 where
  tokens sessions subjects : BucketName

abbrev pub Has : Type 0
Has = BucketName → String → Eventual

-- `claim ? backend.has(bucket, claim) : false`
abbrev ask : Has → BucketName → Option String → Eventual
ask has bucket none = boolean false
ask has bucket (some key) = has bucket key

pub is_revoked_by : Has → Claims → Eventual
is_revoked_by has claims =
    let token_revoked = ask has tokens (truthy claims.jti) in
    if is_boolean token_revoked
    then or_value token_revoked
        (or_value (ask has sessions (truthy claims.sid)) (ask has subjects (truthy claims.sub)))
    else boolean false

-- withRevocationGuard over such a registry: whether the request goes on to `next`.
pub guard_by : Has → Option Claims → Bool
guard_by has none = true
guard_by has (some claims) = not (is_truthy (is_revoked_by has claims))

abbrev pub known : (BucketName → String → Bool) → BucketName → Option String → Bool
known has bucket none = false
known has bucket (some key) = has bucket key

-- With a backend that answers at once, a request with claims goes on to `next` exactly where the
-- backend knows none of its keys.
pub guard_by_boolean :
    (has : BucketName → String → Bool) (claims : Claims)
    → guard_by (λ bucket key. boolean (has bucket key)) (some claims)
      ≡ not (
          known has tokens (truthy claims.jti)
          || known has sessions (truthy claims.sid)
          || known has subjects (truthy claims.sub))
unfolding guard_by is_revoked_by
guard_by_boolean has claims = ground arith

-- With a backend that answers with promises, what they resolve to plays no part: a request whose
-- claims have a token id always goes on to `next`, and one without goes on exactly where it has
-- neither a session nor a subject.
pub guard_by_promise :
    (has : BucketName → String → Bool) (claims : Claims)
    → guard_by (λ bucket key. promise (has bucket key)) (some claims) ≡ (
        is_some (truthy claims.jti)
        || not (is_some (truthy claims.sid) || is_some (truthy claims.sub)))
unfolding guard_by is_revoked_by
guard_by_promise has claims = ground arith
