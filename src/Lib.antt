-- ===== src/Lib.antt =====
-- The audit service as a verified model: how events are signed and classified, how the worker moves
-- them from a Redis stream into durable tables and loses none, how stored rows are hashed and
-- verified, and how operators' tools hold a Redis identity to what it may do.
--
-- Producers write signed events to a stream. The worker (worker/main.py) reads them through a
-- consumer group, parses and classifies each (consumers/processor.py, audit/signing.py,
-- audit/models.py), stores it with a keyed hash (consumers/sink.py, audit/record_integrity.py), and
-- acknowledges it only then. Entries that failed too often are quarantined first
-- (consumers/quarantine.py). Readers get the stored events of their organization
-- (services/audit_query_service.py), once their token is verified (audit/jwt_verify.py). A missing group
-- raises an alert (audit/security_alerts.py). Triggers of the database and a script hold the stored
-- events to their retention (alembic/versions/0005_retention_immutability.py,
-- scripts/audit_retention_cleanup.py), a second script verifies them
-- (scripts/verify_audit_integrity.py), and both leave files that the health service reads
-- (services/audit_health_service.py).
--
-- Files:
-- - Prelude, with its children: library names passed on, Boolean tests, texts, lists, dictionaries.
-- - Python: exceptions as values, datetimes, JSON values, and Exec, code that changes a state and
--   may raise. Exec/Keeps has the rules by which an invariant goes through a block.
-- - Crypto, Library: what is used of hashlib, hmac, json, datetime and pydantic, as parameters, with
--   the properties of HMAC that theorems rely on (IsHex; IsCollisionFree is assumed of SHA-256, and of
--   HMAC under keys that are SHA-256 digests, as all keys of the program are).
-- - Signing: audit/signing.py. Signing/Sound has its theorems.
-- - Config: audit/config.py; times are in milliseconds. Config/Policy has the theorem on keys.
-- - Event, Event/Raw: audit/models.py; Event/Scope is about the validator.
-- - RecordIntegrity, with Cells and Message: audit/record_integrity.py. A record is a dictionary of
--   cells, a missing key reads as None. Rounding, Tamper, Detect and Accept have the theorems.
-- - Alerts: audit/security_alerts.py with `_LAST_SENT` as a dictionary; Alerts/Window the theorems.
-- - Processor: consumers/processor.py.
-- - Storage, Storage/Rows: db/models.py, the database as an interface with the laws of an append-only
--   table with a primary key (IsAppendOnly).
-- - Sink, Quarantine: the two writers. Sink/Verified is about reading back what was written.
-- - Stream: consumers/stream_reader.py over an interface of the Redis commands that it sends.
-- - Worker: worker/main.py. World has the state (stream, tables, alerts, the last attempt to recreate
--   the group, readings of clocks), Nogroup, Message and Loop its functions. Accounted states what is
--   relied on of Redis and what it means that an entry is accounted for; its children prove that
--   every step of the worker keeps it.
-- - AclSafety: scripts/redis_acl_safety.py. Connection logs what is done with each connection;
--   Command, Environment and Session are the code; Allowed, Production, Shut and Attested the
--   theorems.
-- - Query: services/audit_query_service.py, whose filters become lists of conditions, over an interface
--   of the database. Query/Access is the decision of api/deps_audit.py on a verified token,
--   Query/Route the checks and the query of api/routes_audit_safe.py, Query/Answer its body, with the
--   items of schemas/audit.py, Query/Evidence audit/source_semantics.py. Isolated and Projected have
--   the theorems. Query/Admin is api/routes_audit_events.py.
-- - Token: audit/jwt_verify.py over an interface of PyJWT, its key client and Redis. Token/Header has
--   the header parsing of api/deps.py and api/deps_audit.py. Verified and Accepted state which tokens
--   are accepted and how others are refused, Isolated the whole way from the
--   header to the items, and Administered the same for administrators.
-- - Retention/Store, Retention/Statement: the evidence tables, the legal holds, the triggers, and the
--   statements that any user may send. Rows, Evidence and Held are about them. Retention/Host has where
--   a script runs: its environment, the database with its other users and its failing calls, clocks,
--   files and alerts. Tables, Cleanup and Main are the cleanup script; Expected states what a run
--   should leave, without the script's tests; Purge, Exact, Honest and Complete compare the two, and
--   Concurrent, Spared and Kept say what it never removes.
-- - StatusFile: the status files, as they are written and read.
-- - Integrity: scripts/verify_audit_integrity.py, with Integrity/Main. Its rows are records of cells as
--   in RecordIntegrity. Keyring, Counts, Clean, Passed and Written have the theorems.
-- - Health, Health/Alerts, Health/Pipeline: services/audit_health_service.py; Reported, Retained
--   and Degrades have theorems, and Pipeline one beside the function that measures everything.
-- - Tests: a collision-free digest, a Redis and a database in memory, and the theorems at concrete
--   values.
--
-- The loop of `run` takes the number of its rounds, as the code's `max_iterations` does; production
-- sets none, and the theorem holds for every number. All other loops run over lists. Numbers of
-- microseconds since year 1 stand for datetimes; leaving the years 1 to 9999 is an OverflowError as
-- in Python.
--
-- A statement stands for a row test and a change of rows; a trigger that signals at one row undoes the
-- whole statement, as in MySQL. How the server compares texts is a parameter. Before each call of a
-- script's connection any statements of other users may be committed, and the call may fail before or
-- after the server acted; between a DELETE and its COMMIT the transaction's locks keep others out.
-- Dropping a trigger or a table is not among the statements, nor is TRUNCATE, which no trigger stops
-- and which only the grants of the users keep out.
--
-- Not modelled: print() and logging, the closing of sessions, BaseException (a KeyboardInterrupt
-- ends the process), the trimming of a stream at its maximal length, the grants of the database users,
-- a status file that cannot be read, the producer library, and the other migrations.
pub mod Prelude
pub mod Python
pub mod Crypto
pub mod Signing
pub mod Config
pub mod Event
pub mod Library
pub mod RecordIntegrity
pub mod Alerts
pub mod Processor
pub mod Storage
pub mod Sink
pub mod Quarantine
pub mod Stream
pub mod Worker
pub mod AclSafety
pub mod Tests
pub mod Query
pub mod StatusFile
pub mod Integrity
pub mod Token
pub mod Health
pub mod Retention
