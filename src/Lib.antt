-- ===== src/Lib.antt =====
-- A model of selfcloud, a self-hosted cloud of containers, functions, buckets and secrets.
--
-- The parts. A node keeps its resources in a bbolt database (internal/store); every write of a
-- resource mints its metadata, stores it under `project/name`, and emits an event to the channels
-- of the subscribers. With more than one voter the writes go through a raft log, and each node
-- applies the committed entries. The reconciler (internal/runtime/container) reacts to the events
-- and starts the containers; the scheduler picks their nodes; internal/auth and internal/cluster
-- admit people and nodes by tokens. internal/secrets seals the secrets that containers refer to,
-- and internal/events queues what happened and runs the actions of the rules that match. The
-- handlers of internal/api are in front of all of these: they decode a request, call the store and
-- the other parts, and reply. A push to a git repository starts a build
-- (internal/runtime/functions/builder), whose artifact is deployed on a runtime of functions.
--
-- The files.
--   Base: lists, maps, results, and the order of keys.
--   Store/Types: internal/store/types.go. A time is a number of nanoseconds, 0 the zero time; an
--     int64 is its 64-bit pattern; a map of texts is its entries in the order of the keys.
--   Store/Bolt, Store/Deps: what the store uses of bbolt and encoding/json, as operations with
--     laws. They are parameters, and Examples/Memory gives a database and codecs that meet them. What
--     a cursor yields after a deletion, which bbolt leaves open, is an operation without a law.
--   Store/Core, Scoped, Typed: internal/store/store.go. `put`, `get`, `del`, `list`, `emit` and
--     `Subscribe` are the untyped operations, `put_scoped` is putScoped, and Typed has the methods
--     of each resource (`put_container` is PutContainer). A random identifier and the clock are a
--     `Mint`, and the text of a time in a key is a parameter. A channel is the list of its buffered
--     events, at most 64.
--   Store/Fsm, Replicated: internal/store/fsm.go, replicated_store.go, and Apply of raft.go. What
--     hashicorp/raft answers is a `RaftView`.
--   Store/Listing, Tenancy, Isolation, RoundTrip, Deletion, Singleton, Replication, ReplicatedOps,
--     Trimming: the theorems about these.
--   Auth: internal/auth/auth.go. Cluster: internal/cluster/cluster.go. A hash is a parameter.
--   Secrets/Cipher, Manager: internal/secrets/cipher.go and manager.go. AES-GCM is a `Gcm` whose
--     decryption undoes its encryption; `store_secret` is Put and `reveal_secret` is Reveal.
--   Events/Bus: the queue of internal/events/bus.go, 1024 events. Events/Rules and Webhook:
--     internal/events/dispatcher.go; regexp and path.Match are `Matchers`, and an attempt to send a
--     webhook has an `Outcome`.
--   Scheduler: internal/scheduler/scheduler.go.
--   Reconcile/State, Step, One, Run: internal/runtime/container/reconcile.go. `World` holds the
--     store, the in-memory states, and the calls of the runtime, the bus and the network in order;
--     `Surroundings` holds what those answer. `reconcile_one` is reconcileOne.
--   Reconcile/Backoff, Quiet, Running, Again, Rewrite, Exits, Plaintext: the theorems about it.
--   Api/Reply, Guard, Setup, Projects, Sessions, Containers, Defaults, Functions, Buckets:
--     internal/api/handlers.go and server.go. A handler takes the store, what the request was
--     decoded to and what it draws from outside, and returns the store, the calls of other parts in
--     their order, and a `Reply`: the status and the value or the text. The store of a handler is
--     the local one.
--     Api/Invoke and Triggers: internal/api/triggers.go and event_adapters.go; Join: join.go;
--     Cluster and Proxy: cluster.go; Webhooks: webhooks.go; Secrets and Rules: secrets.go and
--     events.go; Readiness: readiness.go; Invocations: the ring of runtime.go, 100 records unless
--     another size is given.
--   Builder/Detect, Records, Run, Stream: detect.go, runner.go and queue.go of the builder. A build
--     log keeps 256 lines, and a subscriber's channel holds 256. Streams and Slots: what the runs
--     and readers share in runner.go, the table of the streams and the slots of the functions, as
--     steps.
--   Wasm/Cron, Rehydrate, Pool: cron.go, rehydrate.go and pool.go of internal/runtime/wasm. The
--     steps of deployments and invocations on the pool are in any order.
--   Firecracker/Protocol: internal/runtime/firecracker/protocol, frames of at most 32 MiB.
--   Logscan/Scanner: internal/events/logscan. Stub: internal/runtime/container/stub.go.
--   Api/Completed, Unchanged, Retry, Admitted, Follower, Push, Environment, Updates, Builder/Final,
--     Reading, OneRun, Subscribed, Wasm/Entries, Leftover, Permits, Firecracker/RoundTrip,
--     Logscan/Followers: the theorems about these.
--   Auth/OneTime, Secrecy, Cluster/OneTime, Scheduler/Earliest, Secrets/Revealed, Resolved,
--     References, Events/Attempts, Exhausted, Order, Firing, Listening: the theorems about these.
--   Examples: the theorems at concrete inputs.
--
-- Termination. Every function is by structural recursion; the loop of the backoff has the rounds
-- of the source's own counter as its bound, and a webhook has its five attempts.
--
-- Not modelled: the headers of replies, the table of routes, the listeners, the streams of events
-- and logs over WebSockets, and the terminal of a container; containerd, wazero, the jails and the
-- agent of Firecracker, garage and the network, which are commands, sockets and libraries; the
-- files of the master key, the configuration and the installer; in the store, the snapshots; in
-- the builder, the clone and the sandbox, whose answers are parameters. Except for the steps of
-- the builder and the pool, concurrent calls are taken one after the other: the store runs each
-- write in a transaction, and the join tokens are issued and consumed under a lock.
pub mod Base
pub mod Api
pub mod Store
pub mod Auth
pub mod Cluster
pub mod Scheduler
pub mod Reconcile
pub mod Events
pub mod Secrets
pub mod Builder
pub mod Wasm
pub mod Firecracker
pub mod Logscan
pub mod Stub
pub mod Examples
