-- ===== src/Lib.antt =====
-- Restoring archived ledger entries of the Stellar network: the TypeScript packages of this repository.
--
-- A contract call needs the ledger entries of its footprint. Entries that have expired are archived and
-- must be restored first. The client classifies the archived keys of a footprint, plans batches of them,
-- builds a restore transaction for each batch, has it signed and submits it, waits for it, and recovers
-- from failures: it refreshes stale sequence numbers, keeps the batches that failed, resumes from a receipt
-- and retries. Under it, RPC calls are retried, limited in number, cached, and moved to another endpoint
-- when one fails.
--
-- The files, with the code each one models:
--   Prelude     shared names: tests, lists over the native numbers, equality, JavaScript maps
--               (Prelude/Dict), stable sorting (Prelude/Order), template literals (Prelude/Text), characters
--               of strings (Prelude/Strings), membership (Prelude/Members)
--   Footprint   packages/sdk/src/footprint-parser.ts: `classifyLedgerKey`, `classifySacKey`,
--               `classifyDeferredKeys`, `extractKeysFromFootprint`
--   Batching    packages/sdk/src/soroban-resurrect.ts: `batchKeys`, `groupKeysByContract`,
--               `batchKeyGroups`, `estimateRestoreFee`
--   Packing     packages/utils/src/batching.ts: `batchKeysByContract`, `groupKeysByPriority`,
--               `createBatches`
--   Submission  packages/sdk/src/soroban-resurrect.ts: `sendSignedTransaction`,
--               `reconcileAmbiguousSubmission`, `waitForTransaction`, `pollForReceipt`, with the
--               classification of errors of packages/sdk/src/types.ts
--   Execution   the same file: `executeRestoreBatches`, `rebuildRestoreBatches`, `createExecutionReceipt`,
--               `resumeRestoreBatches`, `retryFailedRestore`
--   Concurrent  the same file: `executeRestoreBatchesConcurrent`, its semaphore and its report
--   Receipts    the same file: `parseExecutionReceipt`, and the JSON of a receipt
--   Failover    packages/rpc/src/rpc-failover.ts: `RpcFailoverManager`
--   Retry       packages/rpc/src/retry-policy.ts, packages/rpc/src/retry.ts and the codes of
--               packages/errors/src/index.ts
--   Limiter     packages/rpc/src/concurrency.ts: `createConcurrencyLimiter`
--   Restoration packages/sdk/src/soroban-resurrect.ts: `executeRestoreThenOriginal` and its forms for batches
--   Deduplicator packages/sdk/src/event-deduplicator.ts: `EventDeduplicator`
--   Reads       packages/sdk/src/ledger-read-coalescer.ts: `LedgerReadCoalescer`
--   Sponsorship packages/core/src/fee-sponsorship.ts: `validateFeeSponsorship`
--   Socket      packages/sdk/src/soroban-resurrect.ts: `wsWaitForTransaction`, `probeWebSocketSupport`
--   Sharing     the same file: `submitSignedTransaction`
--   Polling     packages/utils/src/polling.ts: `pollWithRetry`
--   Responses   packages/rpc/src/json-rpc-response.ts: `parseJsonRpcResult`
--   Schema      packages/rpc/src/response-schema.ts: `validateRpcResultSchema`
--   Bindings    packages/react/src/middleware.ts and redux.ts: the reducers of the stores
--   Injection   packages/sdk/src/container.ts: `Container`
--   MockLedger  packages/mock-rpc/src/ledger-state.ts and sequence-manager.ts
--   Wallets     packages/wallet-adapters/src/manager.ts: `WalletManager`
--   AuthEntries packages/sdk/src/auth-entry-restoration.ts: the keys of authorization entries
--   Metrics     packages/sdk/src/metrics.ts: the counters and histograms of `MetricsRegistry`
--   Simulations packages/rpc/src/simulation-cache.ts: `SimulationCache`
--
-- A function or method of the source keeps its name, in snake case; a class is a record of its fields, and
-- a method that assigns to them gives the new record. Where the source throws, the model has a result type
-- with the error. An `await` on code that is not in the repository (the RPC server, the wallet, the XDR
-- library) is an argument: a function from the number of the call, or from what is sent, to the answer.
-- The clock is an argument too. Concurrent code is a sequence of events: which submission is answered next
-- in Concurrent, which task is submitted or ends next in Limiter, which read or answer comes next in Reads,
-- which caller or answer in Sharing, which message or timer in Socket. `running` and `started` there name the
-- tasks that the source holds as pending promises.
--
-- Bounds and fuel: `poll_for_receipt` and `poll_from` count the attempts of the source's own loops; `execute` counts the
-- refreshes of sequence numbers, of which the source makes one at most; `with_retry` has one more unit of
-- fuel than there are retries, one for each attempt; `slices` has as much fuel as there are keys. Numbers
-- are natural numbers, and times and fees whole.
--
-- Not modelled: the building and parsing of XDR, which is the Stellar SDK's; the WebSocket itself (its
-- events are the input of Socket); logging, tracing and events; the hash that makes the
-- keys of the simulation cache; the components of the framework bindings, the adapters of single wallets,
-- telemetry, alerts, version negotiation, the footprint cache, the earlier copy of the client in packages/core,
-- and the example.
pub mod AuthEntries
pub mod Batching
pub mod Bindings
pub mod Concurrent
pub mod Deduplicator
pub mod Execution
pub mod Failover
pub mod Footprint
pub mod Injection
pub mod Limiter
pub mod Metrics
pub mod MockLedger
pub mod Packing
pub mod Polling
pub mod Prelude
pub mod Reads
pub mod Receipts
pub mod Responses
pub mod Restoration
pub mod Retry
pub mod Schema
pub mod Sharing
pub mod Simulations
pub mod Socket
pub mod Sponsorship
pub mod Submission
pub mod Wallets
