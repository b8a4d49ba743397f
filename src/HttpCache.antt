-- ===== src/HttpCache.antt =====
-- packages/pureq/src/middleware/httpCache.ts and stalePolicy.ts: a cache of responses with
-- revalidation and a fallback to stale responses. The middleware is `lookup` up to its await of
-- `next` and `finish` after it; other requests may run in between. A request keeps the entry it
-- found, as the source does. `maxEntries` is `none` where it is Infinity; the key of a request
-- (`keyBuilder`) and the clock are parameters, the policy trace is left out.
pub mod Bounds
pub mod Origin
mod Examples
use pureq.Http.{HttpMethod, get as get_method, has_method}
use pureq.Prelude.JsMap.{get, set, delete}
use pureq.Prelude.JsNumber.{JsNumber, is_finite, is_positive}
use pureq.Prelude.{
  ℕ, suc, ◌+◌, ◌-◌, Bool, true, false, not, ◌&&◌, Option, none, some, List, [], ◌∷◌, String, ltb,
  leb, ◌==◌, if◌then◌else◌, number_key, text_key, is_some, length,
}

-- resolveStalePolicy
pub record StalePolicyDecision : Type 0 where
  pub age_ms : ℕ
  pub is_fresh : Bool
  pub can_serve_stale_on_error : Bool

-- Truncated subtraction is the `Math.max(0, …)`.
unfoldable pub resolve_stale_policy : ℕ → ℕ → ℕ → ℕ → StalePolicyDecision
resolve_stale_policy stored_at now ttl_ms stale_if_error_ms =
    let age = now - stored_at in
    record {
      age_ms = age;
      is_fresh = leb age ttl_ms;
      can_serve_stale_on_error = leb age (ttl_ms + stale_if_error_ms);
    }

-- A response as far as the cache reads it; `B` is what else it carries. A clone is the same value.
pub record Response (B : Type 0) : Type 0 where
  pub status : ℕ
  pub etag : Option String
  pub last_modified : Option String
  pub content : B

pub record CachedEntry (B : Type 0) : Type 0 where
  pub response : Response B
  pub stored_at : ℕ
  pub etag : Option String
  pub last_modified : Option String

pub record Options : Type 0 where
  pub ttl_ms : ℕ
  pub stale_if_error_ms : ℕ
  pub methods : List HttpMethod
  pub max_entries : Option ℕ

-- The test that throws where the middleware is made.
pub accepts_ttl_ms : JsNumber → Bool
accepts_ttl_ms ttl = is_finite ttl && is_positive ttl

abbrev pub default_options : ℕ → Options
default_options ttl = record {
  ttl_ms = ttl;
  stale_if_error_ms = 0;
  methods = get_method ∷ [];
  max_entries = none;
}

abbrev pub Headers : Type 0
Headers = List (String × String)

-- Whether a header or a validator counts: it is there and not empty.
abbrev truthy : Option String → Bool
truthy none = false
truthy (some t) = not (t == "")

-- `if (validator && !headers[name]) headers[name] = validator`
unfoldable pub add_validator : String → Option String → Headers → Headers
add_validator name none headers = headers
add_validator name (some value) headers =
    if not (value == "") && not (truthy (get name headers)) then set name value headers else headers

abbrev pub Cache : Type 0 → Type 0
Cache B = List (String × CachedEntry B)

-- What the middleware comes to before its await: it hands the request on as it is, answers from
-- the cache, or asks `next` with these headers and keeps the entry it found.
pub data Lookup (B : Type 0) : Type 0 where
  bypass : Lookup B
  fresh : Response B → Lookup B
  ask : Headers → Option (CachedEntry B) → Lookup B

-- What `next` comes to, and what the middleware answers after it.
pub data Reply (B : Type 0) : Type 0 where
  responded : Response B → Reply B
  failed : Reply B

pub data Answer (B : Type 0) : Type 0 where
  passed revalidated stale : Response B → Answer B
  threw : Answer B

module _ {B : Type 0} where
  pub revalidation_headers : CachedEntry B → Headers → Headers
  revalidation_headers e headers =
      add_validator "If-Modified-Since" e.last_modified
        (add_validator "If-None-Match" e.etag headers)

  -- `cache.delete(key); cache.set(key, entry)`
  abbrev pub move_to_end : String → CachedEntry B → Cache B → Cache B
  move_to_end key e c = set key e (delete key c)

  pub lookup_key : Options → String → Headers → ℕ → Cache B → Lookup B × Cache B
  lookup_key o key headers now c = elim (get key c) [
    | none ↦ (ask headers none, c)
    | some e ↦
        if (resolve_stale_policy e.stored_at now o.ttl_ms o.stale_if_error_ms).is_fresh
        then (fresh e.response, move_to_end key e c)
        else (ask (revalidation_headers e headers) (some e), c)
  ]

  pub lookup : Options → HttpMethod → String → Headers → ℕ → Cache B → Lookup B × Cache B
  lookup o method key headers now c =
      if has_method o.methods method then lookup_key o key headers now c else (bypass, c)

  -- `cache.keys().next().value` and its deletion
  pub drop_oldest : Cache B → Cache B
  drop_oldest [] = []
  drop_oldest ((k, e) ∷ c) = c

  pub make_room : Options → String → Cache B → Cache B
  make_room o key c = elim o.max_entries [
    | none ↦ c
    | some most ↦ if leb most (length c) && not (is_some (get key c)) then drop_oldest c else c
  ]

  abbrev pub is_ok : Response B → Bool
  is_ok r = leb 200 r.status && ltb r.status 300

  pub store : Options → String → ℕ → Response B → Cache B → Cache B
  store o key now r c =
      if is_ok r
      then move_to_end key
          (record { response = r; stored_at = now; etag = r.etag; last_modified = r.last_modified })
          (make_room o key c)
      else c

  pub finish :
      Options → String → Option (CachedEntry B) → ℕ → Reply B → Cache B → Answer B × Cache B
  finish o key none now (responded r) c = (passed r, store o key now r c)
  finish o key none now failed c = (threw, c)
  finish o key (some e) now (responded r) c =
      if r.status == 304
      then (revalidated e.response, move_to_end key (record e { stored_at = now }) c)
      else (passed r, store o key now r c)
  finish o key (some e) now failed c =
      if (resolve_stale_policy e.stored_at now o.ttl_ms
        o.stale_if_error_ms).can_serve_stale_on_error
      then (stale e.response, c)
      else (threw, c)
