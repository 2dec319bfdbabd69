-- ===== src/Lib.antt =====
-- Verification of the SMPP telemetry platform.
--
-- The platform takes ProviderOps records over OTLP, checks and normalises them, keeps them in a
-- write-ahead log with a durable state beside it, projects them to targets, and answers queries
-- about them and about the progress of the projections. Modelled here is the core that decides:
-- what is accepted, what is recorded, and what is said about progress.
--
-- Base: the names that all modules share; Base.Tests and Base.Lists, tests and lists over the
-- native numbers; Base.Text and Base.Order, texts as JavaScript compares them, by UTF-16 units;
-- Base.Bits, masks and shifts; Base.Result, a value or a thrown code, with rules for what a
-- computation ensures; Base.Maybe, chains of options; Base.Pattern, regular expressions; Base.Uuid,
-- the UUIDs of names.
-- Json: the values that JSON.parse and the decoders return. A number is told apart only as far as
-- the code looks at it.
-- Timestamp: telemetry-processor/src/packages/validation/timestamp.ts, `validTelemetryTimestamp`
-- and, in Projection, `projectionTimestamp`.
-- Canonical: telemetry-processor/src/packages/canonical/canonical.ts, `canonicalizeJson`,
-- `sha256Canonical` and `calculateProviderOpsRecordHash`.
-- Runtime: telemetry-processor/src/packages/validation/smpp-runtime-semantics.ts. Checks has its
-- helpers, Semantic its record, Recovery, Closure and Observation a function for each block of
-- `inspectSmppRuntimeSemantic`, Inspect the whole, Sound the invariant, and Restore
-- `restoreSmppRuntimeTransportSemantics`.
-- Correlation: telemetry-processor/src/packages/validation/provider-correlation-policy.ts.
-- Otlp: telemetry-processor/src/packages/otlp/otlp-protobuf.ts, the readers of the wire format, the
-- loop `parseMessage`, `encodePartialSuccess` and, in Decode, the decoders of a request.
-- Validation: telemetry-processor/src/packages/validation/validation.ts. Payload has the scan of the
-- sizes and forbidden contents, Ingress `validateTrustedIngress`, Envelope `validateEnvelope`.
-- Wal: telemetry-processor/src/packages/wal. Crc is crc32c.ts, Segment is segment-reader.ts with the
-- frame that `appendUnlocked` of wal.ts writes, Compact the plan of `compactUnlocked` of wal.ts.
-- Normalization: telemetry-processor/src/packages/normalization/smpp-provider-ops-v1.ts, the entities
-- of a record, in Relations the relations between them, and in Payload the payload of its fact.
-- Query: the query API of telemetry-dashboard/query-api/src. Urn is packages/telemetry-types/src/urn.ts,
-- Scope is scope.ts, Mission and Converge are current-authority.ts, Diagnostic is
-- observability-query.ts.
-- State: telemetry-processor/src/packages/durable-state/worker.ts. Table has `get`, `operation` and
-- `transaction`, Frames the index of the log's frames, Collect segments and `gcPlan`.
-- Generation: telemetry-processor/src/packages/exporters/generation-lifecycle.ts, the lease of a
-- generation as a compare-and-set of State.
-- Progress: telemetry-dashboard/query-api/src/progress.ts, `progressResponse`.
-- Tests: each theorem with hypotheses at concrete inputs.
--
-- A record is checked by Validation, which calls Runtime and Correlation, reads times by Timestamp and
-- takes the hash of Canonical; Runtime restores nulls by the same hash. Accepted records are frames of
-- Wal, and Normalization makes facts of them; Query.Converge reads relations of such
-- facts back. What the log indexes is in State, whose `gcPlan` takes the segments that Wal.Compact
-- releases, and Progress reports on rows that count its dispositions.
--
-- An error is a value: `err` with the thrown code. A request of the worker that throws rolls back,
-- so `err` carries no state. `parse_message` runs on fuel, and the length of the buffer is enough
-- fuel; `any_value` takes a byte of depth for a level, and `scan_from` a byte of fuel for a frame,
-- which has eight bytes at least.
-- `pushVarint` recurses on the order of the numbers. A SQLite table is the list of its rows;
-- the frame tables stand with the highest sequence first, and a primary key keeps rows apart.
--
-- Parameters stand for code outside the repository: `Date.parse`, `JSON.stringify` and
-- `JSON.parse`, SHA-256, UTF-8 lengths, `Number(bigint)`, the sum of doubles, SHA-1,
-- the hash of a file, `encodeURIComponent` and `decodeURIComponent`.
--
-- Not modelled: HTTP, timers, worker threads, ClickHouse and files, which are input and output; the
-- appending of wal.ts with its identities, its changes of checkpoints, targets and pins and the
-- removal of planned segments; the progress ledger, the target manager, replay, projections, the
-- provenance and hash of a fact, OTLP as JSON, and the pages, cursors and readiness of the query API.
pub mod Base
pub mod Json
pub mod Timestamp
pub mod Canonical
pub mod Otlp
pub mod Runtime
pub mod State
pub mod Correlation
pub mod Validation
pub mod Wal
pub mod Normalization
pub mod Query
pub mod Progress
pub mod Generation
pub mod Tests
