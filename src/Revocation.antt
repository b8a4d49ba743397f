-- ===== src/Revocation.antt =====
-- packages/auth/src/revocation/index.ts: the registry of revoked tokens, sessions and subjects,
-- over three maps of its own or over a backend, and the middleware that guards requests by it. The
-- clock is a parameter; a backend's time is the time of the call. `onRevoked` is left out.
pub mod Buckets
pub mod Refinement
pub mod Backend
mod Examples
use pureq.Prelude.JsMap.{get, set, delete}
use pureq.Prelude.{
  ℕ, Bool, true, false, not, ◌&&◌, ◌||◌, Option, none, some, List, [], ◌∷◌, String, leb, ◌==◌,
  if◌then◌else◌, text_key, map,
}

-- `number | null` is `Option ℕ`.
abbrev pub RevocationBucket : Type 0
RevocationBucket = List (String × Option ℕ)

unfoldable pub is_expired : Option ℕ → ℕ → Bool
is_expired none now = false
is_expired (some expires_at) now = leb expires_at now

pub clear_bucket : RevocationBucket → ℕ → RevocationBucket
clear_bucket [] now = []
clear_bucket ((key, expires_at) ∷ bucket) now =
    if is_expired expires_at now
    then clear_bucket bucket now
    else (key, expires_at) ∷ clear_bucket bucket now

pub record Claims : Type 0 where
  pub jti : Option String
  pub sid : Option String
  pub sub : Option String

-- `claim` where it is there and not empty
abbrev pub truthy : Option String → Option String
truthy none = none
truthy (some key) = if key == "" then none else some key

pub record Registry : Type 0 where
  pub tokens : RevocationBucket
  pub sessions : RevocationBucket
  pub subjects : RevocationBucket

abbrev pub new_registry : Registry
new_registry = record { tokens = []; sessions = []; subjects = [] }

pub revoke : RevocationBucket → String → Option ℕ → RevocationBucket
revoke bucket key expires_at = set key expires_at bucket

-- The answer, and the bucket without the key if that has expired.
pub check_key : Option String → ℕ → RevocationBucket → Bool × RevocationBucket
check_key none now bucket = (false, bucket)
check_key (some key) now bucket = elim (get key bucket) [
  | none ↦ (false, bucket)
  | some expires_at ↦
      if is_expired expires_at now then (false, delete key bucket) else (true, bucket)
]

pub is_bucket_revoked : RevocationBucket → Option String → ℕ → Bool × RevocationBucket
is_bucket_revoked bucket key now = check_key (truthy key) now bucket

pub clear_expired : ℕ → Registry → Registry
clear_expired now g = record {
  tokens = clear_bucket g.tokens now;
  sessions = clear_bucket g.sessions now;
  subjects = clear_bucket g.subjects now;
}

-- The three tests after the clearing; a test that succeeds leaves out those behind it.
pub check_claims : Claims → ℕ → Registry → Bool × Registry
check_claims claims now g =
    let (t, tokens) = is_bucket_revoked g.tokens claims.jti now in
    let (s, sessions) = is_bucket_revoked g.sessions claims.sid now in
    let (u, subjects) = is_bucket_revoked g.subjects claims.sub now in
    if t
    then (true, record g { tokens = tokens })
    else if s
    then (true, record g { tokens = tokens; sessions = sessions })
    else (u, record { tokens = tokens; sessions = sessions; subjects = subjects })

pub is_revoked : Claims → ℕ → Registry → Bool × Registry
is_revoked claims now g = check_claims claims now (clear_expired now g)

pub clear : Registry → Registry
clear g = new_registry

pub record Snapshot : Type 0 where
  pub tokens : List String
  pub sessions : List String
  pub subjects : List String

pub snapshot : Registry → Snapshot
snapshot g = record {
  tokens = map (λ e. e.0) g.tokens;
  sessions = map (λ e. e.0) g.sessions;
  subjects = map (λ e. e.0) g.subjects;
}

-- What is asked of a registry.
pub data Operation : Type 0 where
  revoke_token revoke_session revoke_subject : String → Option ℕ → Operation
  asks : Claims → ℕ → Operation
  clears_expired : ℕ → Operation
  clears : Operation

-- The answer, where the operation has one.
pub operate : Operation → Registry → Option Bool × Registry
operate (revoke_token key t) g = (none, record g { tokens = revoke g.tokens key t })
operate (revoke_session key t) g = (none, record g { sessions = revoke g.sessions key t })
operate (revoke_subject key t) g = (none, record g { subjects = revoke g.subjects key t })
operate (asks claims now) g = let (answer, g') = is_revoked claims now g in (some answer, g')
operate (clears_expired now) g = (none, clear_expired now g)
operate clears g = (none, clear g)

pub answers : List Operation → Registry → List (Option Bool)
answers [] g = []
answers (op ∷ ops) g = let (a, g') = operate op g in a ∷ answers ops g'

-- withRevocationGuard: whether the request goes on to `next`; `none` is a request with no claims.
pub guard : Option Claims → ℕ → Registry → Bool × Registry
guard none now g = (true, g)
guard (some claims) now g = let (revoked, g') = is_revoked claims now g in (not revoked, g')
