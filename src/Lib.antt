-- ===== src/Lib.antt =====
-- A model of the core of tom_ai_agent, a host agent in Go with the platform side that commands it,
-- and the theorems about it.
--
-- The platform signs a command envelope and puts the command into the mailbox of an asset
-- (internal/connector/mailbox.go); the asset's agent holds a session in the registry
-- (internal/connector/session.go). The agent verifies the envelope and its nonce
-- (internal/authenv/authenv.go), admits the command to its queue, runs it with a bounded timeout and
-- captures its output (internal/executor), and hands the result to a segmented write-ahead log
-- (internal/reporter/wal.go), from which the reporter (internal/reporter/reporter.go) sends it over the
-- uplink (internal/uplink/grpc.go) to the connector's streams (internal/connector/server.go). The platform
-- keeps commands, an outbox and a ledger of certificates in its database (internal/platform/store.go);
-- agents enrol and rotate their certificates through internal/connector/bootstrap.go.
--
-- Files:
--   Base, Base/*          strings as lists of bytes, maps as association lists, 64-bit integers,
--                         big-endian numbers (encoding/binary), lists by native length
--   Authenv               CommandEnvelope, CanonicalBytes (`canonical_bytes`), Sign, Verify
--   Authenv/Nonces        NonceCache, Check (`check`)
--   Connector/Session     SessionRegistry: Register, Touch, Unregister, Online, OfflineSweep
--   Connector/Mailbox     Mailbox: Submit, Cancel, NextDispatch, Wait, Complete, Result
--   Connector/Bootstrap   Register and RotateCertificate of bootstrap.go
--   Connector/Dispatch    outboxDispatcher and dispatchOutbox of cmd/connector/main.go
--   Connector/Server      Reports and Metrics of server.go
--   Connector/Server/Control  Control of server.go: the handshake, the frames, the dispatch of commands
--   Executor/Output       cappedBuffer of engine.go: Write, String
--   Executor/Actions      catalog, the parameter checks and buildArgv of actions.go
--   Executor/Engine       SubmitEnvelope of envelope.go; Submit, validate, the timeout and the result
--                         of execute of engine.go
--   Executor/Poller       a round of the loop of poller.go, and Cancel of engine.go
--   Reporter/Metrics      Submit, flushMetrics and its two locked halves of reporter.go
--   Reporter/Replay       replayLoop of reporter.go
--   Reporter/Wal          OpenWAL, Append, enforceQuotaLocked, ReadFrom, readSegment, PendingBytes
--   Platform/Commands     internal/platform/store.go: commands, their events and the outbox
--   Platform/Enrollment   internal/platform/store.go: enrolments and certificates
--   Uplink                internal/uplink/grpc.go: the waiters of reports and metrics, the backoff
--   Uplink/Control        controlRecv of grpc.go: the frames of the gateway
--   Uplink/Credentials    dialOption of grpc.go
--   Config                internal/config/config.go: the records, the defaults and Load
--   Plugin                internal/plugin/plugin.go, and AddActions of internal/executor/engine.go
--   Iam/Rbac              rbac.go: HasPermission, ValidRole, PermissionsOf
--   Iam/Totp              internal/iam/totp.go: codeAt and Verify
--   Watchdog/Sentinel     sentinel.go: the check of the agent's own resources
-- The children of a file hold its theorems, and its file Examples the tests. A function of the source
-- keeps its name in lower case; a struct is a record with the same fields.
--
-- Conventions. Each operation that a mutex guards is one step on its state. The clock is an argument.
-- A Go map is an association list whose order is the order in which `range` walks it. crypto/ed25519
-- is a parameter, the record Ed25519, with its documented behaviour as hypotheses. hash/crc32 is
-- written out with the IEEE polynomial. A system call that fails is an argument (Faults of
-- Reporter/Wal), and so is a failing statement of the database, which rolls its transaction back. A
-- handler whose calls of the database interleave with those of other requests takes the others' calls as
-- lists. A channel with a buffer is the value that waits in it, and a send to a full one that no reader
-- empties is `none`. Unsigned and signed 64-bit integers wrap where the source's do. Only
-- flushMetrics has fuel, the number of its rounds, and one more than there are samples is enough; every
-- other loop is over a list, and the loop of readSegment over the count of records it still takes.
--
-- Not modelled: network and HTTP, the choice between the events of a stream, file formats of keys, the
-- YAML and SQL libraries, the collectors that read /proc, generated protocol code, and the tools. The reader of the log takes
-- a directory whose segments exist and can be read. Texts of errors stand as the values that they are
-- made of. The queue of the engine is taken to have a buffer, and a worker's receipt is not a step.
pub mod Base
pub mod Authenv
pub mod Connector
pub mod Executor
pub mod Reporter
pub mod Platform
pub mod Uplink
pub mod Config
pub mod Plugin
pub mod Iam
pub mod Watchdog
