-- ===== src/Http.antt =====
-- packages/pureq/src/types/http.ts: the methods of a request.
use pureq.Prelude.{ℕ, Bool, false, ◌||◌, ◌==◌, number_key, List, [], ◌∷◌}

pub data HttpMethod : Type 0 where
  get post put delete patch head options : HttpMethod

abbrev pub method_code : HttpMethod → ℕ
method_code get = 0
method_code post = 1
method_code put = 2
method_code delete = 3
method_code patch = 4
method_code head = 5
method_code options = 6

-- `methods.has(method)`
abbrev pub has_method : List HttpMethod → HttpMethod → Bool
has_method [] m = false
has_method (x ∷ xs) m = (method_code x == method_code m) || has_method xs m
