-- ===== src/Lib.antt =====
-- Topo, a discovery system: collectors report what they find on the network to a controller, which
-- queues their jobs, and workers split a scan into partitions.
--
-- The parts, and how they interact:
--
-- * Worker models internal/worker/partition.go: `PlanTargetPartitions` turns a scope of included and
--   excluded CIDRs into partitions of at most a given size. Worker.Prefix is the part of net/netip
--   that it uses. The recursions of `splitToPrefix` and `subtractPrefix` run on fuel, one more
--   than the number of host bits, and Worker.Partition.Settles shows that this never runs out.
--   Worker.Policy models policy.go, Worker.Task the checks of a claimed task (client.go), and
--   Worker.Executor what executor.go lets a plugin discover for it. Of run.go, Worker.Active is the
--   map of active attempts with the cycle of claims, Worker.Lease the renewal of a lease, and
--   Worker.Attempt the reports of an attempt; Worker.StartLimit models start_limit.go. Goroutines
--   are sequences of events: what the control plane answers, and which attempts end meanwhile.
--   A time is a number of nanoseconds.
-- * Control models internal/worker/controlsim/server.go, the control plane that workers are tested
--   against: its records (Control.Records), leases and their expiry (Leases), runs and schedules
--   (Runs), registration and claims (Handlers), what an attempt asks for and reports (Attempts),
--   and its completion (Completion). Control.Steps makes each request one step. Identifiers, SHA-256, JSON and the
--   preview of the publisher are the parameter `ControlText`.
-- * Store models internal/store/store.go, the repository in memory, with the records of
--   pkg/model/model.go (Store.Model): observations, the claims of their sources, the audit
--   entries, schedules and revocations. Store.Resolution models internal/store/resolution.go, which
--   resolves the claims about an asset by the precedence of plugins.
-- * Store.Sqlite models internal/store/sqlite/sqlite.go, the same repository over SQL: its rows
--   (Rows), statements and transactions (Database), the methods that write (Saves) and read
--   (Reads), and the migrations (Migration). A table is a map by its primary key, in the order of
--   `rowid`. `driver` says whether the database carries out each statement, and a transaction
--   that fails gives the tables back as they were. `RowText` is what JSON and the format of times
--   put into a column, which has any type.
-- * Audit models internal/audit/audit.go, the hash chain that the repository appends to.
-- * Enrollment models internal/enrollment/tokens.go and the rules for collector IDs of ca.go, which
--   the handlers of the controller apply.
-- * Controller models internal/controller: the job store (jobs.go), heartbeats (heartbeat.go),
--   schedules (schedule.go), handlers (Controller.Handlers, and Controller.Certificates for
--   enrolment, rotation and revocation) and the authorisation of callers (server.go). A poll first
--   runs the check of the collector's schedule, which may queue a job, and then takes the pending
--   jobs.
-- * Relay models internal/relay/spool.go and run.go: the spool of deliveries, with the temporary
--   files of writes that were cut short, and the cycle that delivers what is left before it claims
--   jobs. The control plane, the publisher, the executor,
--   the clock and the disk are the parameter `Outside`, whose answers depend on the number of calls
--   made before and are otherwise free. `SpoolText` is the length of a JSON text and the format
--   of file names.
-- * Agent models internal/agent: the spool of observations (Agent.Spool: spool.go) and the loop of
--   the agent (Agent.Run: run.go, with `doRaw` of sender.go): a tick delivers what is in the spool
--   and then what it discovers, and a check-in runs the jobs of the controller. Its parameter
--   `Outside` has the answers of the controller, the disk and the plugin at each call.
-- * Mid models internal/mid: the answers to records of the ECC queue (Mid.Records: contract.go,
--   dispatcher.go), the journal of the claim in progress (Mid.Journal: state.go), the calls of the
--   queue (Mid.Transport: client.go), and the cycle over them (Mid.Cycle: run.go). The web service
--   is the parameter `Service`, over a state of any type; `Disk` says how each call to the file of
--   the journal ends, an append that was cut short included; `MidText` and `JournalText` are the
--   encodings. A crash is a cycle that stops with an error.
-- * Prelude has what they share: Go maps as association lists, sorting, counting, results.
--
-- A store is a record, and an operation is a function from the store to the new store and its result.
-- The mutex of each store makes an operation atomic, so a history is a list of operations. The
-- clock and the random source are arguments. Handlers are over the repository in memory, whose
-- methods fail only at a missing schedule; a request body that does not decode is `none`.
--
-- Code outside the repository is a parameter: `PrefixText` (the texts of CIDRs and the hashes of
-- partition keys), `PolicyText` (the hash of a policy's JSON), `AuditText` and `StoreText` (SHA-256
-- and formats of numbers and times), `ValueText` (the JSON of a value), and `Authority` (X.509).
--
-- Not modelled: the file of the SQLite database, HTTP and JSON, TLS and certificates, the decoding
-- of SOAP, the lock of the MID state, the ticker and configuration of the relay, the registration
-- of workers, discovery plugins, publishers, and the tools that build releases.
pub mod Prelude
pub mod Worker
pub mod Control
pub mod Controller
pub mod Agent
pub mod Audit
pub mod Enrollment
pub mod Mid
pub mod Relay
pub mod Store
