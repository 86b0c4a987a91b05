-- ===== src/Lib.antt =====
-- subspace-daemon: the delivery of Subspace messages to local sinks.
--
-- The daemon keeps a connection to each configured Subspace server (src/subspace) and one to the
-- gateway (src/gateway), which it renews when they end. An incoming message passes
-- the runtime store of its server, which refuses what it has seen (src/runtime_store.rs); the
-- attention layer then compares its embedding with the receptors of that server and decides
-- whether it is delivered (src/attention); the delivery store records the decision, the event
-- and its deliveries to the sinks in SQLite (src/storage.rs); the wake queue then sends the
-- wakes to the gateway, with retries, and reports its failures to hooks (src/supervisor.rs,
-- src/hard_failure.rs); and the status reports the health of all of it (src/supervisor.rs,
-- `DaemonStatus`). Outgoing messages come over a socket (src/ipc.rs) and get their embeddings
-- from the same backends. All of it is set up from one file (src/config.rs).
--
-- Files, and the code that they model:
--   Base        shared helpers: tests, lists, texts, results, sorted association lists, JSON values
--   Attention/Receptor    src/attention/receptor.rs: `load_receptor_packs` and its validation;
--                         Loading is its specification, over the files of Reading
--   Attention/Scoring     src/attention/scoring.rs: `cosine_similarity`, over Attention/Float
--   Attention/Plugin      src/attention/embedding_plugin.rs: `EmbeddingPluginClient::embed`
--   Attention/Layer       src/attention/mod.rs: `AttentionLayer::new`, in its two parts
--                         `configure_backend` and `load_receptors`, and the counts of the health;
--                         Armed is about the layers that it builds
--   Attention/Evaluate    src/attention/mod.rs: `evaluate_with_embeddings`. Its two continuations
--                         with and without a vector are `evaluate_with_vector` and
--                         `evaluate_without_vector`; Decision specifies the decision without loops,
--                         Matches is about the reported matches
--   Attention/FailClosed  construction and evaluation together
--   Attention/Outbound    src/attention/mod.rs: `compose_outbound_embeddings` and what it calls
--   Runtime/Retry         src/retry.rs
--   Runtime/Store         src/runtime_store.rs; Window is the invariant of the recent ids, Dedupe is
--                         about runs of calls, Storm about the reconnect guard, Restart about the file
--   Status                src/supervisor.rs: `DaemonStatus` and `AttentionHealth`; Updates is about
--                         sequences of its updates
--   Storage/Schema        src/storage.rs: `ensure_schema`; Ready specifies it
--   Storage/Tables        src/storage.rs: the rows, and the values that are stored
--   Storage/Action        src/storage.rs: operations on a connection, which may fail
--   Storage/Events        src/storage.rs: `upsert_canonical_event` and its statements; Once is about
--                         messages that come again
--   Storage/Sinks         src/storage.rs: the statements on sink targets and deliveries; Delivered is
--                         about deliveries that are queued again
--   Storage/Store         src/storage.rs: the methods of `DeliveryStore`
--   Storage/Gate          the guards of the sinks against the attention layer
--   HardFailure           src/hard_failure.rs; Throttle is about runs of its throttle
--   Wake/Routing          src/supervisor.rs: the sinks of a wake and its text
--   Wake/Send             src/supervisor.rs: the retry loop of `process_wake_queue`; Accepted is about
--                         what the gateway accepts
--   Wake/Process          src/supervisor.rs: one turn of `process_wake_queue`; Wakes bounds what is
--                         sent, Live shows that it is
--   Config/Keyed          src/config.rs: the loops that refuse a repeated key, and what they accept
--   Config/Error          src/config.rs: its errors
--   Config/Entries        src/config.rs: `normalize_sinks` and `normalize_hard_failure_hooks`;
--                         Accepted specifies them
--   Config/Url            src/config.rs: `canonicalize_base_url` and the names derived from it; Safe is
--                         about server keys, Slashes about the loop of `normalize_path`
--   Config/Stored         src/config.rs: the records
--   Config/Load           src/config.rs: `Config::from_stored`; WellFormed specifies it
--   Ipc                   src/ipc.rs: `SendRouter::send` and the route of outbound messages; Replies,
--                         Sends and Accepts are about its successes
--   Pending               the map of the requests that wait, of both clients
--   Gateway/Tokens        src/gateway/device_auth_store.rs; Laws is about what is loaded
--   Gateway/Protocol      src/gateway/protocol.rs
--   Gateway/Connect       src/gateway/client.rs: `connect_once` until the connection is live; Laws is
--                         about what the next connection authenticates with
--   Gateway/Live          src/gateway/client.rs: the loop of `connect_once`, and the whole of it;
--                         Answered is about the requests
--   Gateway/Task          src/gateway/client.rs: `run_gateway_task`; Backoff is about its sleeps
--   Subspace/Identity     src/subspace/identity.rs; Laws is about its files and the migration
--   Subspace/Auth         src/subspace/auth.rs
--   Subspace/Session      src/subspace/client.rs: `ActiveSession`
--   Subspace/Frames       src/subspace/client.rs: `ws_text`, the kinds of errors, the embeddings
--   Subspace/Payloads     src/subspace/client.rs: what is sent, and what is read of a frame
--   Subspace/Live         src/subspace/client.rs: the loop of `connect_once`, over State. Balance and
--                         Answered are about the requests; Effect and Once about the messages on the wake queue
--   Subspace/Join         src/subspace/client.rs: `connect_once` from its start
--   Subspace/Manager      src/subspace/client.rs: `run_server_manager`; Paused is about what follows a
--                         connection that failed
--   Examples              runs on concrete values, and each theorem at one of them
--
-- How the model reads the program:
--   * State is passed explicitly: a method on `&mut self` is a function to the new state. Async code
--     runs to its end in one step; each method holds its lock or its connection throughout.
--   * An f32 is an element of the record `Float`, of which nothing is assumed: a theorem that needs
--     a law of the arithmetic has it as a hypothesis. `sort_by` is a stable insertion sort.
--   * Integers are natural numbers. `saturating_add` and `saturating_mul` are written out with the
--     bounds of u32 and u64. The cast of the failure window to i64 is negative from 2^63; the
--     casts in `jitter` are read for values below that. Times are milliseconds since the epoch, in
--     the delivery store the values of CURRENT_TIMESTAMP.
--   * A `HashSet` is a list without an order, a `BTreeMap` a list in the order of the keys.
--   * The file system, the executables, `serde_json`, the reading and printing of RFC 3339, the
--     random numbers and the f64 arithmetic of `jitter` are parameters (`Environment`, `Rfc3339`,
--     `Jitter`, and fields of `DeliveryStore` for the printed configuration of a sink).
--   * A table is the list of its rows in the order of their insertion. The conflict target of an
--     upsert selects the rows that are updated. An id is free where no earlier row of the table has
--     taken it; that SQLite may leave gaps is not modelled. JSON columns hold the value that is
--     printed into them. The code opens no transaction, so what a statement has written stays where
--     a later one fails. Of the failures
--     of SQLite, those of the NOT NULL columns `score` and `threshold` are modelled, with a parameter
--     for the floats that are stored as NULL (`is_null`); the others, and the foreign keys, are not.
--   * The attempts to send a wake are given as a list: when each is made and ends, and what becomes of
--     it. A turn whose list is over has the outcome `retrying`. Only these attempts have their own
--     times; the other statements of a turn happen at one time. The write of the runtime file at the
--     end of a turn has its error as an argument.
--   * What the task of a server replies to a send, the `url` crate, the functions on paths, and the
--     texts of errors and of scores are parameters (`SendRouter`, `Url`, `Machine`, `Router`).
--   * A `select!` is a list of events in the order in which they are handled; each holds what the
--     world answers in that branch: the time, new UUIDs, the reply of a server, why a frame is not
--     sent or a file not written. A task waits where its list is over. A request is named by a
--     number, and a oneshot sender that is dropped answers it with an error. The order in which
--     `drain` visits the pending requests is that of their list.
--   * The processing of the wake queue, which shares the runtime store with a connection, is an event
--     of the connection (`processed` of Subspace/Live). A file is an entry of a list of paths.
--   * The sockets, HTTP, the keys and signatures, and what serde derives for the frames are
--     parameters (`Link`, `Host`, `Keys`, `Paths`, `Device`).
--   * The loops recurse on their lists; `normalize_path` has one step for each character; the
--     printing of a number has more fuel than it has digits.
--
-- Not modelled: the tasks that src/supervisor.rs starts and stops, the processes of hooks and their
-- timeouts, the socket of src/ipc.rs with its other routes and its client, the generation of the
-- keys in src/gateway/device_identity.rs, and src/main.rs, src/setup.rs, src/launchd.rs,
-- src/logging.rs and src/state_lock.rs, which are I/O for the most part.
pub mod Base
pub mod Attention
pub mod Runtime
pub mod Status
pub mod Storage
pub mod HardFailure
pub mod Wake
pub mod Config
pub mod Ipc
pub mod Pending
pub mod Gateway
pub mod Subspace
pub mod Examples
