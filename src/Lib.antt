-- ===== src/Lib.antt =====
-- A verification library for MuxMail, an email sending service written in Go. The program accepts
-- a send request over HTTP, chooses provider channels for its recipient, reserves a slot of an
-- in-memory queue, an idempotency key and rate limit quota, and commits the message to the queue;
-- workers take tasks from the queue, send each through a provider channel, and queue a retry over
-- the next channel when a send fails. Each step is a record in a log of JSON lines. Providers report
-- later what became of a message: an event moves its status and may suppress its recipient.
--
-- Which file models which part:
--   Domain/Constants   internal/domain/constants.go
--   Domain/Types       internal/domain/types.go
--   Domain/Email       the address checks of internal/domain/request_validation.go
--   Domain/Route       internal/domain/route.go (SelectRoute, uniqueAndTruncateChannels)
--   Lite/Queue         internal/lite/memory_queue.go (MemoryQueue, QueueReservation)
--   Lite/RateLimiter   internal/lite/rate_limiter.go (RateLimiter)
--   Lite/Idempotency   internal/lite/idempotency_cache.go (IdempotencyCache)
--   Lite/Suppression   internal/lite/suppression.go (SuppressionStore: Contains, Add)
--   Lite/Jsonl         internal/lite/jsonl.go (jsonlWriter with its rotation)
--   Lite/Json          its lines of JSON (appendJSONField, appendJSONIntField, appendJSONString)
--   Lite/Records       the records of internal/lite/message_log.go, encoded and decoded
--   Lite/MessageLog    its MessageLog: appends and queries over the files of Lite/Jsonl
--   Lite/Stats         the StatsRecord of internal/lite/stats.go
--   Domain/Hash        the hashes of internal/domain/helpers.go
--   Api/Send           internal/api/send.go (processSend from the fingerprint on, findSceneByCode)
--   Api/Events         internal/api/provider_event.go (applyProviderEvent)
--   Provider           internal/provider/provider.go (SendResult)
--   Worker/Config      internal/worker/worker.go (Config, New, StaticProviderResolver)
--   Worker/Attempts    its pure helpers, from providerChannelForAttempt to retryDelay
--   Worker/ErrorText   its safeErrorMessage
--   Worker/Events      its writes to the message log and the stats
--   Worker/Process     its ProcessTask, over the queue of Lite/Queue
--   Worker/Round       its runOne, one round of the loop
--   Prelude            lists, association lists, equality tests, integers and UTF-8
--   Tests              runs at fixed inputs, and each theorem at one of its inputs
--
-- State is passed explicitly. Each operation of the queue, the limiter and the cache runs under
-- one mutex in the program, so it is a function from a state to a result and a new state, and an
-- interleaving of clients is a list of calls; the child module History of each component has the
-- calls and runs them. The clock is an argument. Dequeue is modelled by its round: what one pass
-- of its loop does under the lock, which returns a task, or waits with or without a timer. A Go
-- map is an association list, and the heap of delayed tasks is the list of its elements in the
-- order in which heap.Pop removes them. A pointer to a reservation is an index into a list of its
-- cells, so that two clients may hold one pointer.
--
-- The worker writes to a message log, a stats sink and an error handler; the model keeps the list
-- of what it wrote. To the worker the message log is a parameter. So are the stats sink, the
-- providers, the clock, the parser of net/mail and the file of the suppression store.
--
-- Bounds and fuel: the loop of the eviction takes as many rounds as there are entries, since each
-- removes one; all other loops are structural. An int of the configuration is an integer without
-- a bound, and a time or duration is a natural number of nanoseconds; their overflow at 64 bits
-- is not modelled. Strings that the program only compares are texts, addresses are lists of code
-- points, and error messages, which are cut, are lists of bytes.
--
-- Not modelled: the HTTP part of the handlers of internal/api (routing, bodies, authentication, the
-- decoding of webhooks) and its admin pages, the configuration loader of internal/config, the
-- templates of internal/template, the summary of the stats, the two sorted lists of the message log
-- and the list of the suppression store in internal/lite, the provider adapters, the command line,
-- and the goroutines, signals and timers of the operating system.
--
-- processSend of internal/api/send.go is modelled from the fingerprint of the request on: it reserves
-- an idempotency key and a slot of the queue, takes quota, writes the message to the log, and commits
-- all three. What Go defers until the return is undone at each return. No other request runs in
-- between, but another goroutine may close the queue before the commit; the components' own theorems
-- hold for every interleaving. applyProviderEvent of
-- internal/api/provider_event.go runs under a lock of its own, with no other writer in between.
--
-- The files of internal/lite/jsonl.go are lists of lines, each backup a file that exists or not; an
-- operating system's error during a rotation is an argument of the append, by the step that it hits.
-- A write of a line succeeds. A line of the message log is its JSON text by tokens: the marks that the
-- code writes, and the literals of encoding/json, whose escapes are undone by json.Unmarshal and are not
-- seen, but which replace the bytes that are not UTF-8. The length of a line in bytes is a parameter, as
-- are the formats of the package time.
mod Prelude
pub mod Domain
pub mod Lite
pub mod Provider
pub mod Worker
pub mod Api
mod Tests
