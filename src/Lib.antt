-- ===== src/Lib.antt =====
-- A model of the snapshot sequencer and validator, in Go, and the theorems about it.
--
-- The program. Snapshotters send signed submissions to a sequencer over a peer-to-peer network. The
-- dequeuer checks a submission and records it in Redis. The event monitor polls the chain for
-- released epochs, opens a window of time in which an epoch takes submissions, and at its end counts
-- the votes for the CIDs of each project and queues them in batches. Finalizers choose
-- a CID for each project of a batch, the aggregator makes the batch of its validator of their parts,
-- and validators exchange these batches: the consensus handler counts the votes of an epoch over all
-- validators, and the aggregator merges the validators' batches into one.
-- The parts meet in Redis, under the keys that pkgs/redis names.
--
-- The files, and the code that they model:
--
-- - Base, Json: Go's strings, maps and comparisons, and what encoding/json makes of a text.
-- - Redis: pkgs/redis/keys.go. Each function of a KeyBuilder is a function of its record; a key is
--   its segments joined by ':', and Redis/Join gives the segments back.
-- - Submissions: pkgs/submissions/dequeuer.go, slot_validator.go and types.go, and
--   pkgs/crypto/eip712.go. ProcessSubmission is `process_submission`; the dequeuer is a record, and a
--   call gives the outcome, the next record and the commands for Redis. A run-time panic is an outcome
--   of its own. Submissions/Cleanup is the sort and the removal of old submissions.
-- - Deduplication: pkgs/deduplication/deduplicator.go, CheckAndMark as calls of several deduplicators
--   that share a Redis; the LRU cache and SETNX are arguments, SETNX with the laws of IsSetNx,
--   which have the lifetimes of keys and the passing of time.
-- - Votes: the count of votes, and the loop for the CID with the most of them, which
--   pkgs/consensus/p2p_consensus.go and cmd/aggregator/main.go both have.
-- - Monitor: pkgs/eventmonitor/monitor.go. Poll is checkForNewEvents and the events; Windows has
--   StartSubmissionWindow, closeWindow and triggerFinalization, once as whole calls and once, in
--   Windows/Interleaving, as the steps between which other goroutines may come, a step relation with
--   Shutdown among the steps; Windows/Cycle follows a window from its opening to its finalization;
--   Collect is collectEpochSubmissions and Batches splitIntoBatches.
-- - Consensus: pkgs/consensus/p2p_consensus.go. Aggregate is the count and the choice of
--   aggregateEpochVotes, Handler has the parts of a message's handling, and Epochs the operations
--   that join them: `process_batch_message`, `aggregate_epoch_votes`, `check_recent_epochs` and
--   `broadcast_finalized_batch`. Signatures is pkgs/consensus/signature_aggregator.go, the votes for
--   whole batches.
-- - Aggregator: cmd/aggregator/main.go. Parts is the first level, aggregateWorkerParts and
--   createFinalizedBatchFromParts, which make the validator's own batch of the finalizers' parts. Of
--   the second level, Merge is createAggregatedBatch, Incoming extractValidatorIDs, and Epoch has
--   processStreamMessage, the aggregation window and aggregateEpoch. Stream has one read of each of the
--   loops around the stream and the queues.
-- - Workers: pkgs/workers/monitoring.go, the commands that tell of a worker and of a part.
-- - Finalizer: the finalizer of cmd/unified/main.go. Part is processBatchPart, Worker
--   runFinalizationWorker, and Progress the count of an epoch's parts, the INCR and the pipeline that
--   follows it, as steps of finalizers that interleave. Pipeline joins it with the split into batches
--   before it and the first level of the aggregator after it.
-- - Sequencer: the rest of cmd/unified/main.go. Listener is queueSubmissionFromP2P, and Messages
--   runDequeuerWorker, which gives the submissions of a message to the dequeuer of Submissions.
-- - Gateway: cmd/p2p-gateway/main.go. The submissions that arrive, in each of their formats, with their
--   metadata (Submissions), handleIncomingBatches, whose notices are the messages that Aggregator/Stream
--   reads, the messages that go out (Outgoing), and the trimming and health of the stream (Streams).
-- - Identity: pkgs/identity/verifier.go. Check has the checks of a signer, Keys, Cache and Flags the cache
--   of verified signers, Slots the slots as they are written and read.
-- - Events: pkgs/events. Emitter has the operations of emitter.go as whole calls, and Emitter/Machine the
--   same as the steps of emitting, processing and stopping goroutines, a step relation whose states also
--   hold the history of what was sent and taken, and of the handlers' calls; Publisher is publisher.go, with its batches and channels.
-- - Metrics: pkgs/metrics. Registry is the map of metrics of registry.go, Histogram its histograms, and
--   Series the insertion, queries and retention of timeseries.go.
-- - MonitorApi: cmd/monitor-api/main.go, its readers of what the other parts wrote to Redis: Timeline has
--   the events and their metadata, Batches the finalized batches, Epochs the epochs.
-- - StateTracker: cmd/state-tracker/worker.go. Periods has the counts over hours and days, Datasets what is
--   stored of them, Epochs the phase of the current epoch, Participation the share in aggregated batches.
--
-- Numbers are natural numbers; a uint64 that the code adds to is taken modulo 2^64. Strings are lists
-- of bytes. A Go map is an association list with distinct keys; where the order of `range` matters it
-- is an argument, with the law that each key is visited once with its value. The loops are recursions
-- on the lists they visit, and need no fuel; the exchange sort counts its rounds by the length of the
-- list, and a decimal has fuel for one digit more than the number itself.
--
-- Arguments of the definitions are: what Redis, the RPC node and IPFS answer, the hash functions, the
-- recovery of a public key, the EIP-712 hash and the checksum spelling of go-ethereum, strconv, the
-- float64 arithmetic of the rate of processing and of the metrics, and the clock. Commands to Redis are
-- lists of values.
-- A test of a quotient against one half is written on whole numbers.
--
-- Not modelled: logging (but for the slices in its arguments that can panic), the wiring of processes
-- and the configuration, the P2P host and its topics; of the HTTP interface the routes, the dashboard and
-- the statistics by hour and day; the rates per second of the state tracker; of the metrics the
-- summaries, the aggregation and resampling of series, the collector and the writers, which are float64
-- arithmetic and output; the functions of cmd/unified that are commented out, and the loops of heartbeats
-- and of waiting. A number of a part that is negative or not whole, which the event monitor does not
-- write, is not followed.
pub mod Base
pub mod Json
pub mod Votes
pub mod Redis
pub mod Deduplication
pub mod Events
pub mod Metrics
pub mod Submissions
pub mod Monitor
pub mod Consensus
pub mod Aggregator
pub mod Workers
pub mod Finalizer
pub mod Sequencer
pub mod Identity
pub mod Gateway
pub mod MonitorApi
pub mod StateTracker
