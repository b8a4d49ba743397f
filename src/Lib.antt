-- ===== src/Lib.antt =====
-- pureq is a TypeScript monorepo: an HTTP client built from middleware (packages/pureq), a database
-- layer (packages/db), remote calls (packages/rpc), validation (packages/validation) and
-- authentication (packages/auth). This library models middleware of packages/pureq that keeps state
-- between requests, the query builders, the query compilers and the Postgres protocol of
-- packages/db, the codec and the handler of packages/rpc, the revocation registry of packages/auth,
-- and the policies of packages/validation.
--
-- A middleware is a function of a request and of `next`, the rest of the chain. Each factory
-- (`createCircuitBreaker`, `concurrencyLimit`, `retry`, `createOfflineQueue`, `httpCache`, `dedupe`)
-- closes over the state that its requests share. The model passes that state on explicitly. Code
-- between two awaits is one step, and requests that overlap are sequences of such steps.
--
-- Files and the code they model, under packages/pureq/src:
--   Prelude            names shared by all modules; JavaScript's Map, and numbers that may be
--                      infinite (Prelude/JsMap, Prelude/JsNumber); lists, tests, integers
--   Http               HttpMethod of types/http.ts
--   CircuitBreaker     middleware/circuitBreaker.ts: one circuit (`gate` before `next`, `settle`
--                      after it); CircuitBreaker/Store: the map of circuits, where requests in
--                      flight hold the address of their entry (`enter`, `leave`, `reset`)
--   ConcurrencyLimit   middleware/concurrencyLimit.ts: the map of buckets, and the middleware as steps
--                      over running and waiting requests; ConcurrencyLimit/Fifo: calls under any keys
--   Retry              middleware/retry.ts: `retry` with its attempts, waits and budget
--   OfflineQueue       middleware/offlineQueue.ts: `enqueue` is the middleware, `perform_flush` is
--                      performFlush; the storage is the record `QueueStorage`, which
--                      OfflineQueue/Storage fills with the in-memory adapter
--   HttpCache          middleware/httpCache.ts and stalePolicy.ts: `lookup` before `next`, `finish`
--                      after it; HttpCache/Origin: requests that overlap (`run`)
--   Dedupe             middleware/dedupe.ts: requests that share a run of `next` (`run`)
--   Guardrails         policy/guardrails.ts: the check on the policies of one client
-- in packages/db/src/builder:
--   Query              ast.ts: expressions and statements
--   Query/Names        utils.ts: which names are allowed, and their quoting
--   Query/Compiler     compileExpression of compiler.ts: `compile`, with its body `compile_node`
--   Query/Statements   the other methods of compiler.ts, and compileUpsert of postgres-compiler.ts
--   Query/Expressions  expressions.ts
--   Builder            builder.ts: Builder/Steps, the methods that collect a statement;
--                      Builder/Security, applyColumnSecurity; Builder/Pushdown, applyRLS and
--                      applyPolicyPushdown (Builder/Passes: its two passes); Builder/Prepare, what
--                      `execute` does before the driver is called
-- in packages/db/src/protocol:
--   PgWire             pg-wire.ts: the encoders of PgProtocol and `decode_message`; PgWire/Rows:
--                      parseRowDescription and parseDataRow; PgWire/Values: the values of a row;
--                      PgWire/Received and PgWire/ReceivedRow: what a server sends of both;
--                      PgWire/Encoded: the messages as the protocol describes them
-- in packages/rpc/src/runtime:
--   Rpc                the platform's text and number formats; Rpc/Sample: a platform for the tests
--   Rpc/Codec          shared/codec.ts: `encode` over its slab (Codec/Growing: what ensure copies and
--                      reserves), which Codec/Bytes describes without it, and `decode`; Codec/Received and Codec/Faithful: what arrives of a value
--   Rpc/Handler        server/handler.ts, shared/crypto.ts and client/proxy.ts: `handle_request`,
--                      `timing_safe_equal`, and `request_of` and `receive` of the client
-- and in packages/auth/src:
--   Revocation         revocation/index.ts: the registry over its own maps (`operate`), and over a
--                      backend (Revocation/Backend), with the guard
-- and in packages/validation/src:
--   ValidationPolicy   policy/merge.ts and policy/types.ts
--
-- Conventions and bounds:
--   - Times, counts and limits are natural numbers; maxEntries and the limits that may be Infinity
--     or negative have types of their own. A clock reading is a parameter of the step that reads it.
--   - `next`, `replay`, the clock, random numbers and the abort signal are parameters.
--   - `retry` runs on fuel: maxRetries + 1, one for each attempt, since the attempts are counted. The
--     batches of a flush run on fuel: the number of pending requests, since a batch takes one or more.
--   - `decode` runs on fuel: twice the number of bytes and one, since each value that is read takes a
--     byte, and a loop over fields or items a unit for each.
--   - `compile` runs on fuel: the depth of the expression, since each call goes to a part of it.
--   - Promise rejections and thrown errors are values of the result types.
--
-- Not modelled: objects where a type of the source forbids them (a function without arguments as an
-- expression), the contents of a slab that is passed to `encode`, hooks and reason strings, a store of the user's own for the circuit breaker and
-- what other tasks do at the awaits of its getEntry, the Web Lock of the offline queue and what
-- other tasks do at the awaits of its middleware and of a flush, the default keys of the cache and of dedupe, what the query
-- builders do with the driver's rows, the arrays, error responses and notifications of Postgres, and
-- the parts that no file above names: the other middleware, the client, and the rest of the packages.
pub mod Builder
pub mod CircuitBreaker
pub mod ConcurrencyLimit
pub mod Dedupe
pub mod Guardrails
pub mod Http
pub mod HttpCache
pub mod OfflineQueue
pub mod PgWire
pub mod Prelude
pub mod Query
pub mod Retry
pub mod Revocation
pub mod Rpc
pub mod ValidationPolicy
