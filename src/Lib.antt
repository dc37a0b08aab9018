-- ===== src/Lib.antt =====
-- A model of the fraud decision service: transactions and fraud labels arrive from Kafka, a
-- transaction is scored against its account's history, the assessment and an outbox row are stored
-- with it in Postgres, and a loop publishes the outbox to Kafka.
--
-- How a transaction runs through the parts, and the file that models each:
-- - Stream/Pool: `Consumer.Run` of internal/stream/kafka.go hands the records that it fetches to
--   workers over channels; the loop and the workers are a step relation, with the channels and the
--   queue of errors as parts of the state. When PollFetches returns is up to the brokers.
--   Stream/Brokers: `ParseBrokers`.
-- - Stream/Consumer: `Consumer.handleRecord` calls a handler until it succeeds, fails for good, or
--   the context is cancelled, with a wait that doubles; then it commits the offset.
--   Stream/Producer: `Producer.Publish`, over a log of messages.
-- - Service/Processor: `HandleTransaction` and `HandleLabel` of internal/service/processor.go decode
--   and validate a payload, call the store and count the outcome. Service/Metrics: the counters of
--   internal/service/metrics.go.
-- - Domain: the events and the two `Validate` methods of internal/domain/domain.go.
-- - Features, Model, Policy: `Extract`, `Logistic.Score` and `Thresholds` of internal/features,
--   internal/model and internal/policy, over Float, the operations on a `float64`. Model/Order: the
--   signals and the order of the map of weights.
-- - Store/Tables: the tables of internal/store/migrations/001_init.sql with their constraints.
--   Store/Evaluate, Store/History: `Postgres.Evaluate` of internal/store/postgres.go and its query
--   for the account's history. Store/Labels: `StoreLabel`. Store/Outbox: `PublishOutbox`.
--   Store/Metrics: `ModelMetrics`. Store/Records: the joined rows of a transaction, `scanRecord` and
--   `GetTransaction`. Store/Listing: `ListTransactions`, its order, its filter and its cursors.
-- - HttpApi/Handlers: the endpoints of internal/httpapi/server.go and ui.go, from the parameters of
--   a request to the status and the value of the response. HttpApi/Cursor: `encodeCursor` and
--   `decodeCursor`. HttpApi/Pages, HttpApi/Walk: the endpoints over the store, and a client that
--   follows `next_cursor`. HttpApi/Stored: what is shown of a stored event. HttpApi/Wire: the texts
--   of times, Base64 and numbers, as a parameter with its laws.
-- - HttpApi/Routes: the patterns that `New` of server.go registers, over ServeMux as a parameter with
--   its laws. Fraudctl: cmd/fraudctl/main.go. Fraudctl/Paths: its paths and the server's endpoints.
--   Fraudctl/Answers, Fraudctl/Service: its `show` command, over the server, the store and the service.
-- - FraudService: the start of cmd/fraud-service/main.go and `Server.Run`. Store/Connection,
--   Stream/Clients: the constructors and the `Close` of the store, the producer and the consumers, over
--   Resources, a log of what is opened, used and closed. FraudService/Closing: that log.
-- - Service/Snapshot: `PipelineSnapshot` of internal/service/pipeline_metrics.go, over what the
--   Prometheus registry gathers.
-- - Service/Outbox: `Outbox.Run` and `flush` of internal/service/outbox.go.
-- - Simulator: `New` and `Next` of internal/simulator/generator.go, over the draws of math/rand.
--   Simulator/Command: the loops of cmd/simulator/main.go that send transactions and labels.
--   Simulator/Joint: its two goroutines side by side, as a step relation with the channel of labels,
--   the context and the producer as parts of the state. Simulator/Run: `run` from the flags on, and
--   what it printed and sent at its end.
-- - Service/System: the steps of the whole service on one database and one broker, as
--   cmd/fraud-service runs its parts side by side, and the states that they reach.
--   Service/System/Soundness and Service/System/Readable: what holds in them. Service/Commits: the
--   consumer's loop round the handler of transactions.
-- - Exec, Errors: calls on a state that may fail, and Go's chains of errors. A message keeps its
--   fixed prefix, not the ids and topics that are printed into it.
-- - Prelude: what the modules share. Platform: encoding/json, the columns of Postgres and
--   its collation, as a parameter with its laws. Tests: the theorems at concrete inputs.
--
-- A method of `Postgres` is a function of the tables. How its calls on the database fail is an
-- argument (`Faults`, `OutboxFaults`, `Commit`), so a statement for all of them is one for every
-- point of failure; a COMMIT may be done with its answer lost. A failed or aborted transaction
-- restores the rows, and not the sequence behind the outbox ids. Transactions run one after the
-- other; the rows that another replica's batch holds are an argument of `PublishOutbox`.
--
-- The loop of `handleRecord` is a recursion over a list with an entry for each round (the handler,
-- the context, the commit), and so are the loop of the simulator, its labels and the ticks of
-- `Outbox.Run`. A list that is used up is a loop that is still at work, so nothing is assumed about
-- how long it runs. The only fuel is the number of requests that a client of the pages makes: one for
-- each row and one more are enough.
--
-- An id of the outbox is a natural number, and so are a partition and an offset. `Run`
-- converts the number of a consumer's workers to an int32. An `int64` is an integer. The sum of the
-- amounts of an hour is checked against its range where it is scanned; the sums of the snapshot and
-- the times of the simulator wrap, and the statements about them say when they do not. A string is
-- taken as text.
--
-- The flags of the commands, the HTTP client and JSON as text are parameters, and so is what the
-- constructors of pgxpool and franz-go and errgroup return.
--
-- Not modelled: the matching of ServeMux and the text of the JSON, the dashboard's page, the
-- migration's SQL but for the constraints of the tables, logging, and the latencies that the handlers
-- observe, of which the number is kept.
pub mod Prelude
pub mod Errors
pub mod Domain
pub mod Float
pub mod Policy
pub mod Exec
pub mod Resources
pub mod Platform
pub mod Store
pub mod Features
pub mod Model
pub mod Service
pub mod Stream
pub mod HttpApi
pub mod Simulator
pub mod FraudService
pub mod Fraudctl
pub mod Tests
