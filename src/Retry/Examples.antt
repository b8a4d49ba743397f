-- ===== src/Retry/Examples.antt =====
-- Runs of retry.ts against concrete replies.
use pureq.Http.{get}
use pureq.Prelude.{ℕ, true, some}
use pureq.Retry.{
  Policy, default_policy, World, Reply, response, network_error, missing, Progress, threw_network,
  Result, retry,
}
use pureq.Retry.Totality.{Ensures}
use pureq.Retry.Bounds.{Bounded, retry-Bounded}
use pureq.Retry.Answers.{Justified, retry-Justified}

abbrev replies : ℕ → Reply
replies ℕ.zero = response 503 missing
replies (ℕ.suc ℕ.zero) = network_error
replies _ = response 200 missing

-- A server that is down for two calls and then answers; no jitter, no abort.
abbrev recovering : World
recovering = record {
  reply = replies;
  random_wait = λ n v. 0;
  clock = λ n. 1000;
  rejects = λ n. true;
}

abbrev eager : Policy
eager = record (default_policy 3) { delay = 0 }

retry-Bounded_example :
    Ensures (Bounded (default_policy 2)) (retry (default_policy 2) recovering get)
retry-Bounded_example = retry-Bounded (default_policy 2) recovering get

retry-Justified_example :
    Ensures (Justified (default_policy 2) recovering true) (retry (default_policy 2) recovering get)
retry-Justified_example = retry-Justified (default_policy 2) recovering get

abbrev no_more : Progress → Result
no_more s = some (threw_network, s)
