-- ===== src/Dedupe/Examples.antt =====
-- Two requests with one key, one with another, and one that does not take part.
use pureq.Dedupe.{idle, Event, arrives, settles, run}
use pureq.Dedupe.Flights.{IsValid, run-IsValid}
use pureq.Http.{get, head, post}
use pureq.Prelude.JsMap
use pureq.Prelude.{ℕ, String, ◌≡◌, refl, some, List, [], ◌∷◌, text_key}

abbrev burst : List (Event String ℕ)
burst =
    arrives get (some "a")
    ∷ arrives get (some "a")
    ∷ arrives head (some "b")
    ∷ arrives post (some "a")
    ∷ settles 0 200
    ∷ []

answers-burst : (run (get ∷ head ∷ []) burst idle).answers ≡ (1, 200) ∷ (0, 200) ∷ []
unfolding run JsMap.get JsMap.set JsMap.delete
answers-burst = refl

inflight-burst : (run (get ∷ head ∷ []) burst idle).inflight ≡ ("b", 2) ∷ []
unfolding run JsMap.get JsMap.set JsMap.delete
inflight-burst = refl

run-IsValid_example : IsValid (run (get ∷ head ∷ []) burst idle)
run-IsValid_example = run-IsValid (get ∷ head ∷ []) burst
