-- ===== src/HttpCache/Examples.antt =====
-- Tests of the cache of httpCache.ts, and inputs at which its properties apply.
use pureq.Http.{get as get_method}
use pureq.Prelude.JsMap.{get, set, delete}
use pureq.Prelude.{
  ℕ, zero, suc, ◌≤◌, max, ◌≡◌, refl, inl, none, some, List, [], ◌∷◌, String, length, All, text_key,
  arith,
}
use pureq.HttpCache.{
  Options, Response, CachedEntry, Cache, Reply, responded, failed, passed, revalidated, stale,
  make_room, drop_oldest, resolve_stale_policy, revalidation_headers, add_validator,
  default_options, lookup, lookup_key, finish, store,
}
use pureq.HttpCache.Origin.{
  Event, starts, finishes, run, run-Justified, Justified, empty, served_fresh, answered, step, land,
  begin,
}
use pureq.HttpCache.Bounds.{length-finish}

abbrev page : Response String
page = record { status = 200; etag = some "v1"; last_modified = none; content = "page" }

abbrev unchanged : Response String
unchanged = record { status = 304; etag = none; last_modified = none; content = "" }

abbrev stored_page : CachedEntry String
stored_page = record { response = page; stored_at = 10; etag = some "v1"; last_modified = none }

abbrev small : Options
small = record (default_options 60) { stale_if_error_ms = 100; max_entries = some 1 }

-- The page at first, then 304, and from 200 on a failure.
abbrev server : String → ℕ → ℕ → Reply String
server key t zero = responded page
server key t (suc zero) = responded unchanged
server key t (suc (suc n)) = failed

abbrev visits : List Event
visits =
    starts get_method "/" [] 0
    ∷ finishes 0 10 0
    ∷ starts get_method "/" [] 50
    ∷ starts get_method "/" [] 90
    ∷ finishes 0 100 1
    ∷ starts get_method "/" [] 180
    ∷ finishes 0 190 2
    ∷ []

run-Justified_example : All (Justified small server) (run small server empty visits)
run-Justified_example = run-Justified small server visits

-- At 50 the page is fresh; at 100 it is confirmed; at 190 the server fails and it is stale.
visits_log :
    run small server empty visits
    ≡ answered "/" 10 (passed page)
      ∷ served_fresh "/" 50 page
      ∷ answered "/" 100 (revalidated page)
      ∷ answered "/" 190 (stale page)
      ∷ []
unfolding run step land begin lookup lookup_key finish store make_room drop_oldest
    resolve_stale_policy get set delete revalidation_headers add_validator
visits_log = refl

abbrev others : Cache String
others = ("/other", stored_page) ∷ []

length-finish_example : length (finish small "/" none 20 (responded page) others).1 ≤ max 1 1
unfolding get
length-finish_example =
    length-finish small 1 "/" none 20 (responded page) others refl (refl, tt) (omega arith)
      (inl refl)
