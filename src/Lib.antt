-- ===== src/Lib.antt =====
-- Verification library of dockward, an agent that keeps Docker Compose services up to date and
-- healthy, with an optional central service ("warden") that collects the events of several agents.
--
-- The program's parts. The agent (`internal/watcher`) has two loops that share a record of metrics and
-- the flags of running deploys. The healer gets the events of the Docker daemon, restarts unhealthy
-- containers and reports recoveries. The updater polls a registry, pulls and recreates a service whose
-- image has a new digest, verifies its health in a goroutine, and rolls back and blocks the digest if
-- that fails. Both tell the world by alerts (`internal/notify`) and audit entries (`internal/audit`).
-- The audit log writes entries to a file that it rotates, and passes them on. A monitor polls the use of
-- CPU and memory and raises alerts at most once per cooldown. Compose commands (`internal/compose`) are
-- run on inputs that are checked first. An API shows the state, starts checks and redeploys, unblocks
-- digests and changes the configuration, which is saved by a rename.
-- The agent and the warden stream events to browsers through a hub (`internal/hub`). The warden keeps
-- the newest events of all agents in a ring buffer and polls the agents (`internal/warden`).
--
-- Which file models what:
--   Prelude, Prelude/*       lists, options, text (Go strings as lists of bytes), Go maps, signed int
--                            (Last: the last n of a list; Scan: lines of a text; Sort: insertion
--                            sort; Files: texts by path)
--   Docker                   the records of internal/docker/containers.go, images.go, events.go; Health
--                            is internal/docker/health.go, Stats the percentages' input of stats.go
--   Config, its Defaults and Validation     the records, setDefaults and validate of
--                            internal/config/config.go; proofs in Services and Loading; Save is
--                            internal/config/save.go with its proof
--   Audit, Audit/Disk        internal/audit/audit.go; the proofs are in Archives, Counting and Reading
--   Compose, Compose/EnvFile     internal/compose/compose.go and validation.go; the proofs are in Guard
--                            (what runs), Kept (what the configuration keeps) and RoundTrip
--   References               imageName, imageTag, registryHost (internal/watcher/updater.go), parseRef
--                            (internal/registry/registry.go), parseImageRef, LocalDigest
--                            (internal/docker/images.go)
--   Watcher/Effects          alerts, audit entries, imageChange, and the calls that a handler makes
--   Watcher/Metrics          internal/watcher/metrics.go; Prometheus has the text of a scrape, DockerGauge
--                            the callback of cmd/dockward/main.go; the proofs are there and in Exposed
--   Watcher/Monitor          internal/watcher/monitor.go; the proofs are in Induction, Cooldown, Eviction
--                            and Alerts
--   Watcher/Api              the handlers of internal/watcher/api.go; Status has the status of a service,
--                            ConfigApi is internal/watcher/api_config.go, Views has the handlers that
--                            only read; the proofs are in AuditView (with the audit log), Triggers,
--                            Redeploy (with the command that compose runs), Shown (with the healer and
--                            the updater) and Upserts (with the validation of the configuration)
--   Watcher/State            the structs of healer.go and updater.go, and the log of effects
--   Watcher/Healer, its Events     internal/watcher/healer.go; the proofs about it are in Restarts,
--                            Cooldown, Recovery, Invariant and Isolation beside Events
--   Watcher/Updater          the small operations of internal/watcher/updater.go; Deploy has deploy,
--                            onDeploySuccess and rollback, Verify the two verification loops, Check
--                            has checkAndUpdate, Poll has checkComposeDrift and pollAll; the proofs
--                            are in Exclusive, Rollback, Restored, Blocked, NotRedeployed, Verdicts,
--                            Errors, Drift, AutoStart and Cleanup
--   Hub, Hub/Limits          internal/hub/hub.go and limiter.go; proofs in Clients, Invariant, Delivery
--   Warden/Store             internal/warden/store.go; the proofs about its ring buffer are in Ring
--   Warden/Server            internal/warden/heartbeat.go and ingest.go; proofs in Access and Agents
--   Shutdown                 internal/shutdown/coordinator.go, as steps in any order; the proofs are in
--                            Runs, History (against the actions so far) and Ends
--   Tests, PollTests         runs on concrete data; Watcher/Samples has the data
--
-- How the state corresponds. A handler is a function on `Watcher`, which holds the maps of the healer
-- and of the updater, the metrics, and a log of effects, newest first: alerts, entries, calls that
-- change Docker or run compose, and goroutines started. What a handler learns from outside (the answers
-- of Docker, of the registry and of compose, the contents of files, whether the context is done, the
-- time) is an argument, in a record of answers where there are several; answers are arbitrary, so a
-- theorem holds for whatever the world says. An error of an audit write is only logged by the source
-- and has no effect in the model; what the program prints to its own log is left out.
--
-- Concurrency. Each mutex guards reads and writes of one map for a few lines, and handlers are modelled
-- one after another; a run of the healer is a list of events and restart checks in any order, and a
-- subscription to the hub takes the limiter that it consults before the lock as an argument, since the
-- check and the addition are two critical sections. The interleaving of one handler of the healer with
-- one of the updater within their bodies is not modelled. The steps of a shutdown, of the operations and
-- of the managers interleave in any order.
--
-- Bounds. Time is in nanoseconds from an epoch before every time at hand; counters are numbers without
-- a bound (an int64 that is only incremented). The loops over images, changes, services and containers
-- are structural. The verification of a deploy polls until it decides; the model is given the list of
-- its rounds and yields none if no round decides, and a round whose clock is past the deadline does.
-- The ring buffer of the warden has the 200 entries of the source; its history is not bounded.
-- Channels of the hub are numbered in the order of their creation.
--
-- Text. `strings.TrimSpace` is modelled on the bytes of UTF-8. Messages are constructors with their arguments.
-- The two resource thresholds of a service are integers in a unit of the reader's choice.
--
-- The percentages of the monitor are exact fractions; the source's are floating-point numbers.
--
-- JSON is not modelled: a state file is the list of entries that it encodes, a request's body is what it
-- decodes to or is refused, and what json.Marshal makes of an entry or of a configuration is a parameter.
-- An entry is read back with its strings made valid UTF-8, which is a parameter too.
-- So are the verbs of fmt in a scrape, the text of a time, and the command and files of compose, with the
-- answers of the file system as records of answers.
--
-- Not modelled: HTTP servers, pages and streams, delivery of notifications and of entries to the warden,
-- the Docker client, the wizard and the command line, the start of the goroutines, and what each part
-- does when it is shut down.
pub mod Prelude
pub mod Docker
pub mod Config
pub mod References
pub mod Compose
pub mod Watcher
pub mod Hub
pub mod Warden
pub mod Audit
pub mod Shutdown
