-- ===== src/Lib.antt =====
-- Verification of the core of the ROPUS risk manager: the decision on a transaction, the model
-- registry and its promotion, the canary rollout with its circuit breaker, the retraining of the
-- model, the distributed lock, the event outbox, the idempotency store, the rate limiter, the
-- rules of a tenant and the incidents. All of it is Go code in backend/internal/riskengine and
-- backend/internal/rules.
--
-- The parts and their files. The orchestrator (orchestrator.go) decides on a transaction: threat
-- and graph signals, the tenant's rules, a model that the canary router picks, and a cost policy
-- (cost_policy.go) lead to a recommended action. A model registry (model_registry.go) holds the
-- versions of the risk model; promotion is guarded by provenance records (provenance.go), and a
-- reconciliation at start-up checks the artifacts on disk (artifact_verifier.go,
-- artifact_store.go) and repairs the registry. A canary router (canary_router.go) sends a share of
-- the transactions to a candidate model, records the outcomes, and hands a snapshot of its metrics
-- to a circuit breaker (circuit_breaker.go), whose trip takes the traffic back. A retraining
-- coordinator (retraining_coordinator.go) starts a training job when drift is measured or an
-- operator asks (retraining_trigger.go), takes its candidate through the gates
-- (offline_validator.go, retraining_types.go), the registry and the stages of the canary router,
-- and promotes it or rolls it back. Jobs exclude each other by a lock (distributed_lock.go), in
-- memory or in Redis. Events leave through an outbox (outbox.go) with workers, retries and dead
-- letters. HTTP mutations pass an idempotency middleware (idempotency.go), in memory and in
-- PostgreSQL, and requests a rate limiter per tenant (rate_limiter.go). A tenant's rules are
-- conditions over a transaction (rules/ast.go), kept in a table under maker and checker
-- (rules/service.go). An incident engine (incident_engine.go) raises, escalates and resolves
-- incidents from reports on the other parts.
--
--   Common       helpers: Boolean tests, lists, Go maps as association lists (Dict), int (Int)
--   Registry     Types: RegisteredModel, ModelRegistry, ModelProvenance. Provenance: the two
--                validations. Ops: the methods that write and the getters; below it their theorems.
--                Reconcile: the four passes of Reconcile; below it their theorems. History: any
--                sequence of calls.
--   Artifact     VerifyArtifact and resolveFilePath; Names, Accepts: what it accepts
--   Rollout      Float: float64 (for Limiter too). Breaker: CircuitBreaker; Window and Invariant: its theorems.
--                Metrics: LatencyReservoir, CanaryMetrics and Snapshot. Router: CanaryRouter, its
--                routing, recording, rollback and UpdateConfig; below it their theorems.
--   Retraining   Types: the states of a job and the configuration. Trigger: the trigger engine; Drift:
--                its theorem. Gates: ValidateCandidate and the shadow gates; Accepts: theorem. State,
--                Ends, Coordinator: RetrainingCoordinator, the ways a job ends, and the calls that
--                start and move it. Pipeline: executeJobPipeline and executeCanaryRollout as stages;
--                Progress: its theorem. Steps: the interleavings of goroutines, operators and traffic;
--                below it their theorems.
--   Decision     Cost: EvaluateCostSensitiveDecision. Signals: what reports and rules contribute.
--                Pipeline: the middle of Evaluate, on Rollout.Router and Rules. Threats, Ignored:
--                theorems.
--   Lock         Local: LocalDistributedLock. Remote: RedisDistributedLock and its Lua scripts.
--                Exclusion, Counts: theorems on sequences of calls.
--   Outbox       Delivery: processWithRetries. Queue: Enqueue, the worker loop and FlushAndClose,
--                one function per atomic step. Steps: their interleavings. Kept, Accounts, Close:
--                theorems.
--   Idempotency  Store: the in-memory layer of IdempotencyMiddleware up to the critical section's
--                end, and what ends a request. Steps: the interleavings of requests. Current, Once,
--                Running, Replay, Capacity: theorems. Table: the SQL statements. Flow: the decision from the
--                database. Lease, Durable: theorems.
--   Rules        Text, Value: strings, JSON values and operators. Ast: Evaluate; Dual, Missing: theorems.
--                Service: the statements on the table, Parse: ParseRuleDefinition, Steps: interleavings
--                of requests; Checked, MakerChecker, Editor, Race: theorems.
--   Incidents    IncidentEngine: filing, escalation, acknowledgement and resolution. Evaluate: a
--                round of reports. Climbs, History, Ids: theorems.
--   Limiter      TenantBucket and TenantRateLimiter; Isolation: its theorem
--   Examples     tests and the witnesses of the theorems
--
-- How the code corresponds. A Go struct is a record with the same fields in snake_case, a method
-- is a function from the arguments and the record to the results and the new record, and an error
-- is a value. A method that a mutex makes atomic is one function; where goroutines interleave
-- (outbox, idempotency, retraining, the log of the canary router) each atomic step is one function
-- and a data type Step says when it can happen. A map is an association list, and the list's order
-- is the order in which one run of range visits it. Pointers that are shared and written
-- (idempotency records, jobs, candidates and incidents) live in a heap. Time is a number of
-- nanoseconds, or of seconds where the code compares seconds, and a method is given the clock
-- reading that it makes; the tokens of locks are arguments. An int that can be negative is the
-- type of Common.Int; the counters are natural numbers, whose wrap-around at 2^63 is left out.
--
-- Parameters, for code outside the repository: float64 arithmetic (Rollout.Float), the file system
-- and SHA-256 (Artifact), the hashes of routing keys and requests, the Redis server (Lock.Remote),
-- what dispatchers, contexts and other pods do between the steps (the records named World), the
-- answers of the training runner, the text that fmt makes of a reason (Retraining.Pipeline) and of
-- numbers (Incidents.Evaluate), and for the rules the conversions of strconv, fmt and
-- encoding/json and the tables of Unicode (Rules.Value).
--
-- Bounds and fuel. The retries of a delivery are structural on the attempts that are left, which
-- are the event's MaxRetries or 3. The polls of a wait on the database are a number that the query
-- carries, since three seconds of a 20 ms ticker bound it; the theorems hold for every number. No
-- function can run out of fuel.
--
-- Not modelled: of the orchestrator's Evaluate, how the reports, features and the rules' context
-- are gathered, and what is stored, encrypted and logged after the decision; the lists of rules
-- and the store of rules without a database; the audit log and the saved state of the retraining
-- coordinator, and a coordinator without a registry or a router; logging, metrics output and HTTP
-- encoding; the provenance pointers that registry copies share; the length of the outbox's waits;
-- the response recorder of the idempotency middleware; a clock that goes back and a negative
-- number of tokens in the rate limiter; the safety gates of the canary router; negative times to
-- live of locks; a router without a breaker; what the alert manager does with an alert; and the
-- parts of the program that are not named above.
pub mod Common
pub mod Artifact
pub mod Registry
pub mod Retraining
pub mod Rules
pub mod Rollout
pub mod Decision
pub mod Limiter
pub mod Lock
pub mod Idempotency
pub mod Incidents
pub mod Outbox
mod Examples
