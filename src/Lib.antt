-- ===== src/Lib.antt =====
-- The Revenium Go SDK: what carries usage records to Revenium and what stops calls over a budget.
--
-- A client of the SDK makes a usage record of each AI call and hands it to the metering client
-- (core/metering/client.go), which sends it in the background. Every send goes through a retry loop
-- (core/resilience/retry.go) and through the circuit breaker that the clients of one key share
-- (core/resilience/circuit_breaker.go). A record whose send fails in a way worth retrying is held in
-- the metering buffer (core/metering/buffer.go), which resends what it holds, a window at a time,
-- through the same breaker. Before a call is made, the enforcement engine judges it by the team's
-- cost-control rules (core/enforcement), which a poller keeps fresh. Outcomes of jobs are reported by
-- the job client (core/jobs), through the same retry loop and a breaker of its own.
--
-- Files:
--   Base.antt, Base/*: shared names, lists over native numbers, texts, printed and signed numbers.
--   Core/Errors.antt: core/errors.go and the other error values; errors.Is and errors.As.
--   Resilience/Classify.antt: core/resilience/error_handler.go and isBufferable of client.go.
--   Resilience/BreakerState.antt and Breaker.antt: the state and the methods of
--     core/resilience/circuit_breaker.go, under the method names:
--     admit, settle, releaseProbe (release_probe), onSuccess (on_success), onFailure (on_failure),
--     HoldOpenFor (hold_open_for), Reset (reset), CanExecute (can_execute), Execute (execute).
--     Breaker/System.antt runs them as interleaved calls; Breaker/Invariant, System/Tickets,
--     System/Probes, System/Late, Opening and Recovery prove.
--   Resilience/Retry.antt: core/resilience/retry.go and ParseRetryAfter of retry_after.go;
--     Retry/Rules has the rule by which an invariant goes through the loop.
--   Resilience/Registry.antt: the breakers per scope of core/resilience/global.go
--     (AcquireCircuitBreaker, releaseScopedBreaker, ResetCircuitBreakers) as entries and handles;
--     Registry/Spec.antt says what they promise, and the children of Counts and Refine prove.
--   Resilience/ConcurrencyLimit.antt: core/resilience/concurrency_limit.go.
--   Metering/Record.antt and Buffer.antt: the records and their sizes, and the operations, of
--     core/metering/buffer.go, with settleQueuedSend of client.go; push,
--     reserveForSend, takePending, settle, putBack, evictOldestUntil and the rest keep their names.
--     Buffer/Replay.antt has the resending, and Buffer/System.antt runs all of them beside each
--     other; Buffer/Evicting, Buffer/Flush and the children of Buffer/System prove.
--   Metering/DeliveryMonitor.antt and Client.antt: delivery_monitor.go, and of client.go enqueue,
--     SendSync, deliver, holdIfRetryable and undelivered, as steps beside those of the buffer;
--     Client/Sends, Matched, Owed, Books and Close prove.
--   Metering/FieldGuards.antt: core/metering/field_guards.go and agentic_job.go.
--   Anthropic/Iterations.antt and CacheWrites.antt: of anthropic/iterations.go the keys of billed
--     passes, and converseCacheCreation of anthropic/cache_write_split.go.
--   Webhooks/Verify.antt: webhooks/verify.go; Verify/Accepts and Verify/Header prove.
--   Enforcement/Rule.antt, Context.antt, Models.antt, Matcher.antt, RuleSet.antt, Cache.antt,
--     Evaluator.antt: rule.go, context.go, model_match.go, matcher.go, the rule set of payload.go,
--     cache.go, evaluator.go; the children of Matcher and of Evaluator prove.
--   Enforcement/Engine.antt: core/enforcement/engine.go and the state of poller.go: register, end
--     (end_lease), Stop (stop_all), Check (check_call), boot, begin (begin_poll), stop (stop_poll),
--     fetchRules (fetch_rules). Engine/System.antt runs clients and pollers beside each other;
--     Engine/Counting, Counts, Polls, Kept, Leased and Checks prove, Engine/Tests holds runs.
--   Jobs/WriteSafety.antt, Calls.antt, Client.antt: core/jobs/write_safety.go and client.go: what a
--     request's answer becomes (execute_and_parse), the retries of doReadSafeToRepeat,
--     doWriteNotSafeToRepeat and doRetrying, and ReportJobOutcome, AppendOutcomeMetrics and
--     AmendJobOutcome. Jobs/Outcome.antt and Confirmation.antt: types.go, metrics.go and
--     report_confirmation.go; Confirmation/Spec.antt says what a job that holds a report has. The children of WriteSafety, Calls,
--     Outcome, Confirmation and Client prove.
--   The files named Tests.antt: concrete runs.
--
-- State and time: a method that holds a mutex is one function on the record of its fields, and
-- goroutines are lists of such steps in any order. Each reading of the clock is an argument, in
-- nanoseconds, in seconds for webhooks. What a guarded function, a context, a random source or a server does is an argument
-- too: an outcome, or a function from the number of the attempt.
--
-- Numbers: generations wrap at 2^64, and the theorems on interleavings are for runs of fewer events.
-- Byte counters are plain numbers; that they are exact shows that no subtraction stops at 0. Amounts
-- of money (float64) are only copied. Delays are whole nanoseconds, see Resilience/Retry.antt. Case
-- mapping, white space and case folding of Unicode are the parameter `Unicode` (Base/Texts.antt).
--
-- Fuel: only the loop of replay runs on fuel, the number of pending records, which each window
-- lowers by at least one; the printing of a number has one more than its value.
--
-- Not modelled: JSON, HTTP, environment and configuration, logging, the timer of the poll, the
-- provider packages but for what is named above, the builders of payloads, prompt capture, and of
-- jobs the calls that only read. RecordSuccess and RecordFailure are modelled as operations, but
-- are no steps of the interleavings, which are those of Execute.
pub mod Base
pub mod Core
pub mod Resilience
pub mod Jobs
pub mod Webhooks
pub mod Anthropic
pub mod Metering
pub mod Enforcement
