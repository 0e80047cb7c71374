-- ===== src/Lib.antt =====
-- The Go programs under the examples directories of the handbook, modelled by component: state as a
-- record, an operation as a function from the state to the new state and its result, an error as a
-- value. Mutexes serialise the methods they guard, so a call is one step; clock readings, decoded
-- input, handlers and stores of other packages are arguments. The parts meet in their own programs
-- only: the order service calls its claim store and applier, the payment service its store, the
-- payment transport the payment service, the transport and the payments API the writers and the
-- middleware of Http, the RecentKeys window its ring, the processing of a partition the order
-- service's classification of errors, the consumer's loop that processing, the telemetry the chain of
-- the payment transport, and PostgresStore the interface of FakeStore; the job processor and the pools
-- share the states of a worker. The other parts are independent. Goroutines that share a channel are
-- a step relation: a step is one communication, one close or one return, and any ready one may come
-- next.
--
-- Files, and the code that they model:
--   Base       shared names, Boolean tests, lists, results, `int64` patterns and maps
--   Ledger     25-fintech-with-go/examples/ledger/{ledger,money}.go: Money, Journal.Post, PostBalance,
--              Balance, Total, ReversalEntry
--   Lease      16-distributed-systems/examples/lease/lease.go: Coordinator.Acquire and Renew,
--              Fenced.Write and Newest
--   Resilience 15-microservices/examples/resilience/resilience.go: Retry, Breaker.Allow and Record,
--              Bulkhead.Do
--   Ring       03-data-structures/examples/ring/ring.go: Ring and RecentKeys
--   Messaging  17-messaging/examples/messaging/broker.go: DecodeEnvelope, Broker.Publish, next, dead,
--              Consume, handle, redeliver
--   Kafka      18-kafka-with-go/examples/{service,consumer}.go: OrderService.Process, MemoryClaims,
--              processPartition; Kafka/Consumer Run, toDeadLetter, adapt, recordsOf of consumer.go
--   Jobs       08-concurrency/examples/{05-jobprocessor,04-backpressure}/main.go: runWithRetries,
--              RetryPolicy, Metrics, the Processor of 04-backpressure; Jobs/Service NewProcessor,
--              Start, Submit, Stop of 05-jobprocessor as steps
--   Pools      08-concurrency/examples/02-workerpool/main.go: Run as steps; Pools/Cancel Run, worker
--              and process of 03-workerpool-cancel/main.go beside it
--   Lru        03-data-structures/examples/lru/lru.go: New, Get, Peek, Put, Remove
--   Heap       03-data-structures/examples/heap/heap.go: Push, Pop, siftUp, siftDown, checkInvariant
--   Security   21-security/examples/secure/secure.go: Verify, Allow, Sweep, NewFetcher, Fetch
--   Http       14-backend-development/examples/service/internal/platform/{httpjson/httpjson,
--              httpmw/httpmw}.go: Write, WriteError, Chain, statusWriter, ScopedLogger, AccessLog,
--              Recover, and what net/http sends for the calls of a handler
--   Api        12-http-networking/examples/api/main.go: the store, the handlers, Handler
--   Linkcheck  tools/linkcheck/main.go: linksIn, stripInlineCode, linkResolves
--   Payments   14-backend-development/examples/service/internal/payments/{service,memory}.go: Service,
--              MemoryStore; Payments/Transport http.go beside them: authenticate, requireKind, Routes,
--              create, cancel, mapError
--   Telemetry  14-backend-development/examples/service/internal/platform/obshttp/obshttp.go:
--              Instrument, statusWriter, RoutePattern; internal/payments/metrics.go: emitCharged and
--              emitFailed in Charge and Cancel
--   Config     14-backend-development/examples/service/internal/config/config.go: Load, Summary,
--              Secret; main.go of the service: newLogger, openStore; Config/Startup main and run
--   Calculator 10-testing/examples/calculator/{calc,api}.go: Eval, Divide and the handler
--   Bank       13-databases/examples/bank/{bank,fake}.go: FakeStore; Bank/Postgres postgres.go beside
--              them: withinTx, Charge, ByCustomer, Account
--   Memory     09-memory-runtime/examples/memwatch/memwatch.go: Tracker, MapGrowth
--   Registration 04-functions-methods-interfaces/examples/di/{service,user}.go: NewUser, Register, Get
--   Generics   07-generics/examples/genlib/genlib.go
--   Slices     02-go-language/examples/seqops/seqops.go, all but CopyChunks
--   Errors     05-errors/examples/{errorslib/errors,service/service}.go: Retryable, Wrap, writeError
--              and the handler
-- The child modules of a part hold its lemmas and theorems, and its Tests the concrete runs.
--
-- Numbers: an `int64` is its 64-bit pattern below 2 ^ 64 (Base.Int64), with sums that wrap and signed
-- orders; counters that grow by one are natural numbers, with a bound in a theorem's hypotheses where
-- it matters. A text is compared and measured in bytes, as in Go. An unspecified order of a map is
-- the order of the association list, which is any.
--
-- Loops are structural or on fuel. Slices.chunk_loop starts with one more than the length, and each
-- turn takes at least one element; Heap.up_loop starts with one more than the index, which falls, and
-- Heap.down_loop with one more than the length, where the index grows; Security.split_from starts with
-- one more than the length of the text, and each part ends a byte earlier; Linkcheck.scan_loop has
-- one for each byte of the line, and each turn takes one at least; Generics.retry has no bound
-- in the code, and ends for any fuel above the number of the attempt that ends it. Retries with a cap
-- count their attempts left. The consumer's loop is structural on the polls that it makes. A step
-- relation needs no fuel: the pools and the stop of the job processor have a number that each step
-- lowers.
--
-- Not modelled: the mux of net/http, JSON, base64, ed25519, DNS and the HTTP client, the token bucket
-- of x/time/rate, spans and exporters, the database behind SQL, the Kafka client and producer, printed
-- output and the main functions but that of the payment service, since they are input and output or
-- calls of other packages, where the code relies on them as arguments; the texts of error messages,
-- where no code reads them. The capacity that a slice is made with is left out.
pub mod Base
pub mod Ledger
pub mod Lease
pub mod Resilience
pub mod Ring
pub mod Messaging
pub mod Kafka
pub mod Jobs
pub mod Payments
pub mod Bank
pub mod Generics
pub mod Slices
pub mod Errors
pub mod Lru
pub mod Heap
pub mod Security
pub mod Http
pub mod Api
pub mod Linkcheck
pub mod Pools
pub mod Telemetry
pub mod Config
pub mod Memory
pub mod Registration
pub mod Calculator
