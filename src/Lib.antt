-- ===== src/Lib.antt =====
-- LIOP, the Logic-Injection-on-Origin Protocol: the core of its TypeScript SDK (sdks/typescript/src).
-- A node offers tools to clients over a gateway or a peer-to-peer mesh. A request passes a rate
-- limiter and the scope check, the agent's runtime looks its tool up in a routing table and fetches an
-- OAuth token, the execution is written to a hash-chained audit log, and metrics count it. An executor
-- checks the session and the token of a call, the budgets of the fields that its logic asks for, and
-- after the run what would leave the node. Each part is a module: a state, its operations and what they
-- promise. Telemetry alone writes the state of others, of Metrics and Histogram; Egress composes
-- Sanitizer, Aggregation and Pii, which keep none.
--
-- - RateLimiter: gateway/rate-limiter.ts. `Limiter` is the class, `check`, `reset`, `cleanup` and
--   `close` its methods with the clock as an argument; a step of the model is a call or a round of the
--   timer, and any sequence of these is considered.
-- - Rbac: security/rbac.ts. `authorize_request` is the whole function, with the inherited names that
--   an object lookup finds, and the scope check of jwt-validator.ts's `AuthInfo`.
-- - RoutingTable: runtime/routing-table.ts and the aliases of gateway/mcp-compat.ts. The map of routes
--   is the state of every operation.
-- - TokenManager: runtime/token-manager.ts. `getToken`, `invalidate` and `isExpired`; the request and
--   the two continuations of an answer are separate steps, so that calls interleave.
-- - AuditLogger: security/audit-logger.ts. Records, the hash chain and its check, the file and a start
--   from it. SHA-256, JSON and the test for blank lines are the parameter `Platform`.
-- - Metrics and Histogram: observability/metrics.ts. Counters, gauges and histograms over the key of a
--   label set. The engine's sort and number printing are the parameter `Engine`.
-- - Telemetry: economy/telemetry.ts. The operations of a session, its reports, and what each operation
--   writes to the metrics.
-- - GrpcWeb: gateway/grpc-web.ts. Frames as lists of bytes.
-- - Backoff: the cooldowns of gateway/router.ts (manifest queries) and mesh/node.ts (dials).
-- - CallLimiter: the sliding windows of server/index.ts (`checkToolCallRateLimit`,
--   `checkGlobalRateLimit`), in the order in which `callTool` asks them.
-- - FieldBudget: the query budgets of fields, in memory, of server/index.ts (`applyInMemoryBudget`,
--   `resetFieldBudget`, the last phase of `runPreflightPolicy`) with `classifyField` of
--   security/taint-analyzer.ts. FieldBudget/Disk has the budgets on disk, with the hundred attempts at
--   their lock, the fallback to memory, and the steps of processes that share the lock.
-- - Guardian: sandbox/guardian.ts and security/guardian.ts, the checks of a module's imports.
-- - StreamBridge: bridge/stream.ts. The sessions of clients over HTTP and the middleware before them;
--   the check of the limit and the opening of a session are steps that other requests come between.
-- - Receipt: security/zk.ts. The journal and the receipts of an execution as bytes, encoder and decoder,
--   with the errors they throw. SHA-256 is the parameter `Sha256`.
-- - SealVerifier: security/zk.ts, `ZkVerifier`. The check of receipts of version 1 without a worker.
-- - ZkWorker: workers/zk-verifier.ts, with the digest of crypto/logic-image-id.ts. What a client's worker
--   checks of a receipt that Receipt decodes. Cryptography, JSON and the normalisation of the logic's
--   source are the parameter `Platform`.
-- - Verifier: crypto/verifier.ts, `verifyZkReceipt` with the registry of keys. It fills the payload of
--   ZkWorker, whose handler it runs in place of the pool.
-- - Attestation: crypto/verifier.ts, the reports of hardware.
-- - Validators, ForbiddenKeys and Pii: server/pii.ts. The validators of matches, the check of the names
--   of fields, and the scan of values for personal data, which calls both. The matches of regular
--   expressions, `JSON.parse` and the scanner for names of persons are parameters.
-- - Privacy: security/dp-engine.ts. The noise over the numbers of an output, with the names that decide
--   its size. Floating-point arithmetic and the samples are the parameter `Numbers`.
-- - Value: the values that tools answer with, and the recursion into texts that are JSON, on fuel.
-- - Aggregation: server/index.ts, `unwrapForAggregationPolicyScan` and `violatesAggregationFirstPolicy`.
-- - Sanitizer: server/output-sanitizer.ts, over the arithmetic of `Decimals`; Sanitizer/Shared has the
--   outputs in which an object stands twice.
-- - Egress: server/index.ts. The checks between the worker and the caller, which call Sanitizer,
--   Aggregation and Pii: `executeInWorkerPool`, and in Egress/Stream the egress of `executeLogic`.
-- - Sessions: server/index.ts. The sessions of executors, the list of revoked tokens with its file, and
--   what `negotiateIntent` and `executeLogic` check before the policies of a tool; Rbac decides on the
--   scopes of a token.
-- - Topology: runtime/topology-probe.ts. Which gateway a node finds and the mode that follows; what
--   servers answer is the parameter `Network`.
-- - Interceptor: gateway/interceptor.ts. When the call of the interceptor returns, and when and how what it
--   returns settles, if it does, are an argument.
-- - Sandbox: sandbox/wasi.ts, the environment of a sandbox and the fuel of its logic.
-- - Common: shared names, lists, maps in insertion order as JavaScript's `Map` keeps them, integers,
--   text and bytes.
--
-- Numbers: a JavaScript number is a natural number, or an integer where the code makes it negative;
-- sums are exact, as they are in JavaScript below 2 ^ 53; the floating-point arithmetic of Privacy and
-- of Sanitizer is a parameter. A text is a `String`, or the list of its ASCII codes where the code reads characters. Time
-- is in milliseconds. Loops are recursion on the list they run over.
-- `decodeFrames` runs on fuel, of which a frame takes five bytes at least, so that the length of the
-- buffer is enough; so do the walks into texts that are JSON, for which the number of characters and
-- values in the input is, since a value is not larger than its text.
--
-- Not modelled: sockets, HTTP, libp2p, gRPC, worker threads, the execution of injected logic, files
-- but for the audit log, the list of revoked tokens and the budgets, cryptography, regular expressions,
-- the taint analysis of logic, which walks the syntax trees of a parser, the Rust crates.
pub mod Common
pub mod RateLimiter
pub mod Rbac
pub mod RoutingTable
pub mod TokenManager
pub mod AuditLogger
pub mod Metrics
pub mod Histogram
pub mod Telemetry
pub mod GrpcWeb
pub mod Receipt
pub mod SealVerifier
pub mod ZkWorker
pub mod Attestation
pub mod Verifier
pub mod Validators
pub mod Value
pub mod Aggregation
pub mod Sanitizer
pub mod Sessions
pub mod Egress
pub mod ForbiddenKeys
pub mod Pii
pub mod Privacy
pub mod Topology
pub mod Interceptor
pub mod Sandbox
pub mod StreamBridge
pub mod Backoff
pub mod CallLimiter
pub mod FieldBudget
pub mod Guardian
