-- ===== src/Lib.antt =====
-- Nstance keeps groups of virtual machine instances at their configured sizes. A server holds the
-- lead of a shard; its reconciler takes events from a queue and creates, replaces, drains and deletes
-- instances through an instance manager, by a local table of them. Tenants that use managed NAT have
-- public addresses, whose assignment to instances is kept in one object of the shared storage.
--
-- The parts and their files:
-- Base: names of the libraries, Boolean tests, association lists for Go's maps, integers, results.
-- Storage: internal/server/storage. A disk is a map from keys to contents; `read`, `write`,
-- `put_if_match`, `remove` and `exists` of Storage.Mock are Get, Put, PutIfMatch, Delete and Exists of
-- mock.go, and Storage.File is the conditional write of file.go. The digest is a parameter that gives
-- different contents different entity tags, and never the empty one. A fault of the operating system is
-- an argument, and a write that fails is taken to leave the disk as it was: file.go publishes by a link or a
-- rename, while the plain write of mock.go may leave a part of the file. A name that cannot be read for its
-- state counts as absent in mock.go, which is left out. The file backend's lock makes its conditional
-- write one step, and it refuses the keys that validateKey does.
-- Nat: internal/server/nat/assignments.go. Nat.Changes has the change that each method of
-- AssignmentStore makes to the map; Nat.Store has `update` and `load`, with the eight rounds of the
-- source, the faults of reads and writes, and what other writers do between the read and the write of
-- each round, as parameters; Nat.Methods puts them together. JSON is a codec: its decoder gives back the
-- entries that were encoded.
-- Nat.Manager: `observe` is Observe of internal/server/nat/manager.go, the scaling of a NAT instance by its
-- health reports, up to the replacement that it starts. The floating-point numbers are a parameter.
-- LocalDb: the rows of internal/server/localdb/db.go and the queries and updates of instances.go that
-- the reconciler and the garbage collection use. The table is a list in the order of creation, by which
-- the reconciler's queries sort it.
-- Reconciler: internal/server/reconciler. The world is the reconciler's state with the table, the
-- delayed events and a log of what was done outside, newest first. The environment answers for
-- the configuration, the provider, the instance manager, the tenant state, leadership, the clock and
-- the faults of the database. The instance manager's CreateInstance and DeleteInstance answer with the
-- table they leave whether they succeed or fail, and may change it in any way: the source inserts the row of
-- an instance, and marks the start of a drain, before the provider is asked. Reconciler.Create is
-- createInstanceForGroup and deleteInstance; Retry is retry.go and scheduleEvent; Drain is drain.go;
-- Expiry is the ages and timers of expiry.go; Scaling is scaling.go; Health is health.go; Events is
-- events.go and the reconciliation of many groups; Loop is reconciler.go. A handler calls the
-- others in the order of the source, and every early return is a branch.
-- TenantState: internal/server/tenantstate/manager.go. Entries has the changes that the closures of the
-- methods make to the document of sleeping tenants; Document has `update`, `load` and `install`, with the
-- four rounds of the source; Cutover has `restore` and `continue_sleep`, restore and continueSleep;
-- Operations has Sleep, Wake and the other methods, the resumed transitions, the timers and the terms. A
-- method is an action on the world of Base.Exec, with an outcome; the environment answers each call at its
-- moment, and lets others write the disk and the manager's copy before it.
-- Identifiers: internal/identifiers/validate.go. Config: the dynamic groups of internal/server/config.
-- Config.Subnets is the check of a requested subnet pool of subnets.go, and Config.Subnets.Validation is
-- ValidateSubnetConfig, whose errors differ in their texts only; Config.Groups is mergeGroups, mergeGroupConfig
-- and the closure of UpsertGroup of groups.go, Config.Loader is the part of loader.go that reads, changes,
-- stores and caches the document, with GetGroup, UpsertGroup and DeleteGroup. The hashes of the groups
-- and the faults of the storage, the cache and the database are answers of the environment.
-- Gc: internal/server/gc, the cycle of runner.go with the three operations of service.go, over the queries
-- of LocalDb.Collected. Every call takes a moment in which others may change the table and the storage.
--
-- Durations and times are numbers of nanoseconds. A handler reads the clock once, where the source may
-- read it several times. The delay of a retry is computed in 64 bits, and the panic of the
-- random generator is an answer of its own. Retries end at the eighth attempt, the queue holds a thousand events. All
-- recursion is structural: on a list, or on the number of rounds, instances or turns; the
-- retries of an interrupted transition are taken for any number of rounds.
--
-- Left out: logging, locks within a process, the transport of the API, the providers' services, the agent,
-- the operator, the commands, certificates, the provider's side of a tenant's cutover, the rest of
-- the NAT manager and of the configuration, and the election. Nothing here says that a provider or a storage
-- service behaves as its parameter does.
pub mod Base
pub mod Config
pub mod Gc
pub mod Identifiers
pub mod LocalDb
pub mod Nat
pub mod Reconciler
pub mod Storage
pub mod TenantState
