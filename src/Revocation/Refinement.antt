-- ===== src/Revocation/Refinement.antt =====
-- The registry of revocation/index.ts refines one that keeps every revocation for ever.
use pureq.Prelude.JsMap.{get}
use pureq.Prelude.{
  ℕ, ◌≤◌, ◌≡◌, refl, sym, ap, ◌∙◌, inl, inr, Bool, true, false, ◌||◌, Option, none, some, List, [],
  ◌∷◌, Bool-cases,
}
use pureq.Revocation.{
  Claims, truthy, Registry, new_registry, is_bucket_revoked, clear_expired, check_claims,
  is_revoked, clear, Operation, revoke_token, revoke_session, revoke_subject, asks, clears_expired,
  clears, operate, answers,
}
use pureq.Revocation.Buckets.{
  Ledger, note, listed, Mirrors, clear_bucket-Mirrors, revoke-Mirrors, is_bucket_revoked-Mirrors,
}

-- The specification: three ledgers, which no passing of time changes.
pub record Ledgers : Type 0 where
  pub tokens : Ledger
  pub sessions : Ledger
  pub subjects : Ledger

abbrev pub blank : Ledgers
blank = record { tokens = λ key. none; sessions = λ key. none; subjects = λ key. none }

abbrev pub expected : Operation → Ledgers → Option Bool × Ledgers
expected (revoke_token key t) f = (none, record f { tokens = note f.tokens key t })
expected (revoke_session key t) f = (none, record f { sessions = note f.sessions key t })
expected (revoke_subject key t) f = (none, record f { subjects = note f.subjects key t })
expected (asks claims now) f = (
  some (
      listed f.tokens (truthy claims.jti) now
      || listed f.sessions (truthy claims.sid) now
      || listed f.subjects (truthy claims.sub) now),
  f,
)
expected (clears_expired now) f = (none, f)
expected clears f = (none, blank)

abbrev pub expected_answers : List Operation → Ledgers → List (Option Bool)
expected_answers [] f = []
expected_answers (op ∷ ops) f = (expected op f).0 ∷ expected_answers ops (expected op f).1

-- the time that an operation reads, where the last one before it was at `before`
abbrev pub time_of : Operation → ℕ → ℕ
time_of (asks claims now) before = now
time_of (clears_expired now) before = now
time_of _ before = before

-- the clock does not go back
abbrev pub Monotone : ℕ → List Operation → Type 0
Monotone before [] = Unit
Monotone before (op ∷ ops) = (before ≤ time_of op before) × Monotone (time_of op before) ops

record Refines (g : Registry) (f : Ledgers) (now : ℕ) : Type 0 where
  tokens : Mirrors g.tokens f.tokens now
  sessions : Mirrors g.sessions f.sessions now
  subjects : Mirrors g.subjects f.subjects now

new_registry-Refines : (now : ℕ) → Refines new_registry blank now
unfolding get
new_registry-Refines now = record {
  tokens = (tt, λ key. inl refl);
  sessions = (tt, λ key. inl refl);
  subjects = (tt, λ key. inl refl);
}

clear_expired-Refines :
    (g : Registry) (f : Ledgers) (before now : ℕ)
    → before ≤ now
    → Refines g f before
    → Refines (clear_expired now g) f now
unfolding clear_expired
clear_expired-Refines g f before now h r = record {
  tokens = clear_bucket-Mirrors g.tokens f.tokens before now h r.tokens;
  sessions = clear_bucket-Mirrors g.sessions f.sessions before now h r.sessions;
  subjects = clear_bucket-Mirrors g.subjects f.subjects before now h r.subjects;
}

check_claims-Refines :
    (claims : Claims) (g : Registry) (f : Ledgers) (now : ℕ)
    → Refines g f now
    → let result = check_claims claims now g in
      (some result.0 ≡ (expected (asks claims now) f).0) × Refines result.1 f now
unfolding check_claims
check_claims-Refines claims g f now r =
    let (t, tokens) = is_bucket_revoked-Mirrors g.tokens f.tokens now claims.jti r.tokens in
    let (s, sessions) = is_bucket_revoked-Mirrors g.sessions f.sessions now claims.sid r.sessions in
    let (u, subjects) = is_bucket_revoked-Mirrors g.subjects f.subjects now claims.sub r.subjects in
    let lt = listed f.tokens (truthy claims.jti) now in
    let ls = listed f.sessions (truthy claims.sid) now in
    let lu = listed f.subjects (truthy claims.sub) now in
    elim (Bool-cases (is_bucket_revoked g.tokens claims.jti now).0) [
      | inl p ↦ rw p (
        ap (λ x. some (x || ls || lu)) (sym p ∙ t),
        record { tokens = tokens; sessions = r.sessions; subjects = r.subjects },
      )
      | inr p ↦ elim (Bool-cases (is_bucket_revoked g.sessions claims.sid now).0) [
        | inl q ↦ rw p (
            rw q (
              ap (λ x. some (x || true || lu)) (sym p ∙ t)
                  ∙ ap (λ x. some (lt || x || lu)) (sym q ∙ s),
              record { tokens = tokens; sessions = sessions; subjects = r.subjects },
            ))
        | inr q ↦ rw p (
            rw q (
              ap some u
                  ∙ ap (λ x. some (x || false || lu)) (sym p ∙ t)
                  ∙ ap (λ x. some (lt || x || lu)) (sym q ∙ s),
              record { tokens = tokens; sessions = sessions; subjects = subjects },
            ))
      ]
    ]

operate-Refines :
    (op : Operation) (g : Registry) (f : Ledgers) (before : ℕ)
    → before ≤ time_of op before
    → Refines g f before
    → ((operate op g).0 ≡ (expected op f).0)
      × Refines (operate op g).1 (expected op f).1 (time_of op before)
unfolding operate is_revoked clear
operate-Refines (revoke_token key t) g f before h r = (
  refl,
  record {
    tokens = revoke-Mirrors g.tokens f.tokens before key t r.tokens;
    sessions = r.sessions;
    subjects = r.subjects;
  },
)
operate-Refines (revoke_session key t) g f before h r = (
  refl,
  record {
    tokens = r.tokens;
    sessions = revoke-Mirrors g.sessions f.sessions before key t r.sessions;
    subjects = r.subjects;
  },
)
operate-Refines (revoke_subject key t) g f before h r = (
  refl,
  record {
    tokens = r.tokens;
    sessions = r.sessions;
    subjects = revoke-Mirrors g.subjects f.subjects before key t r.subjects;
  },
)
operate-Refines (asks claims now) g f before h r =
    check_claims-Refines claims (clear_expired now g) f now
      (clear_expired-Refines g f before now h r)
operate-Refines (clears_expired now) g f before h r =
    (refl, clear_expired-Refines g f before now h r)
operate-Refines clears g f before h r = (refl, new_registry-Refines before)

answers-Refines :
    (ops : List Operation) (g : Registry) (f : Ledgers) (before : ℕ)
    → Monotone before ops
    → Refines g f before
    → answers ops g ≡ expected_answers ops f
unfolding answers
answers-Refines [] g f before h r = refl
answers-Refines (op ∷ ops) g f before h r =
    let (here, next) = operate-Refines op g f before h.0 r in
    let rest =
      answers-Refines ops (operate op g).1 (expected op f).1 (time_of op before) h.1 next in
    ap (λ a. a ∷ answers ops (operate op g).1) here ∙ ap (◌∷◌ (expected op f).0) rest

-- As long as the clock does not go back, every sequence of operations on a new registry has the
-- answers of the specification: claims are revoked exactly if one of their keys was, and its last
-- revocation since the last `clear` has not expired.
pub answers_lem :
    (ops : List Operation) → Monotone 0 ops → answers ops new_registry ≡ expected_answers ops blank
answers_lem ops h = answers-Refines ops new_registry blank 0 h (new_registry-Refines 0)
