-- ===== src/Lib.antt =====
-- A verification library for the Mortris server: the Go code that receives analytics events from
-- games, from the body of a request to the rows of the database, and that manages who may see them.
--
-- The parts and where they are modelled:
--   Failure            internal/contracts/errors.go, internal/apierr: codes, errors and results.
--   Contracts.Types    internal/contracts/types.go: the wire types.
--   Contracts.Pattern  internal/contracts/validate.go: the regular expressions, byte by byte.
--   Contracts.Validate internal/contracts/validate.go: Validate of the three requests, ValidateEvent.
--   Contracts.Json     internal/contracts/decode_scan.go: the scan for repeated keys and deep nesting
--                      (Scan), the JSON values that it is compared with (Spec), and the proofs.
--   Contracts.Decode   internal/contracts/decode.go: the strict decoding of requests.
--   Diskstate          internal/diskstate: classify.
--   Ratelimit          internal/ratelimit: NewLimiter and Allow.
--   Ingest             internal/ingest: Db (the tables of migrations/ and the queries), Exec (a
--                      handler's effects), Time (batch.go's clock rules), Admit, Authorize and
--                      Prepare (batch_processing.go), Persist and Stats (batch_persist.go), Policy
--                      (policy.go), Batch (Service.Batch), Register (register.go and
--                      register_helpers.go), Probe (policyprobe.go). Service is any sequence of the
--                      three handlers; Guard, Failures, Rows, History, Accounting, Progress and
--                      Choice hold proofs.
--   Policyadmin        internal/policyadmin: List, Create and Delete of policy rules.
--   Sdktest            internal/sdktest: the controller of the deliberate faults.
--   Adminauth          internal/adminauth: the roles of a session, the CSRF check, the login throttle,
--                      and in Sessions Login, Logout and ValidateSession.
--   Httpapi            internal/httpapi. The management of the dashboard: Guards (auth_middleware.go),
--                      Accounts, Members and Projects (project_handlers_accounts.go, _members.go and
--                      _projects.go), Purge (purgeProject, projectPurgeQueries), SdkControl
--                      (sdk_test_control.go, project_sdk_test_handler.go). Changes is one call of any
--                      of these; Kept, Distinct and Privilege hold proofs. Policies
--                      (policy_handlers.go). Ingestion (handlers.go, errors.go): the handlers that
--                      an SDK calls.
--   Maintenance        internal/maintenance: the deletions of retention.go and a round of runner.go.
--   Analytics          internal/analytics: Catalog (puzzle_gravity.go, puzzle_catalog_validation.go),
--                      Payload and Attempt (puzzle_attempt.go), Step and Replay (puzzle_replay.go),
--                      Timeline (puzzle_memory_timeline.go), Drops (puzzle_drops.go).
--   Prelude            the shared names, lists, Go's maps and integers.
--
-- How they interact: a body is decoded by Contracts.Decode, whose rejected events go with the request
-- to Service.Batch. Batch asks the disk state and the limiters, validates, authorizes, prepares each
-- event, stores them in one transaction, picks the policy and records statistics, each statement of
-- these outside the transaction.
--
-- State: a handler is a function of a World, which holds the tables, the limiters, the disk state and
-- what the environment decides: which of the next statements fail (the begin and the commit of a
-- transaction included), and what the clocks read. The world comes back beside an error too, so what
-- was done before a failure is kept. A transaction that does not commit restores the tables that its
-- begin saw. Requests follow each other; of two requests at once the database's isolation is trusted.
-- A map is a list of pairs, visited in the order of first insertion.
--
-- Bounds and fuel: numbers are unbounded but where the code depends on a width: a Duration is held
-- within 64 bits, and its negation overflows as in Go. The scan's recursion is on fuel, two units for
-- each byte of a body, which is enough since each token takes a byte. A deletion loop is on fuel too:
-- one unit for each row of the table and one more are enough.
--
-- Parameters: encoding/json (Decoder with the documented laws of Token and More, and JsonLibrary),
-- base64, SHA-256, the length of json.Marshal and time.Parse (Library), the token bucket of
-- golang.org/x/time/rate (RateLibrary), Argon2id, what is drawn at random and the case folding of texts
-- (AuthLibrary), the hash of a checkpoint's text, whether the text of a decoding error has "unknown
-- field", and the rounded distance of two points.
--
-- Not modelled: the texts of messages; routing, and the reading and writing of HTTP; configuration,
-- connection pools, dashboard, generated code and deployment, which are I/O or other languages; the
-- SQL of the reports of internal/analytics, of which the catalogue's validation, the attempt view,
-- the replay, the memory timeline and the drops are modelled; the lists that the management shows;
-- and the disk monitor of internal/maintenance. A commit whose answer is lost counts as a rollback.
-- Which of equally specific rules SQL returns is left open by the code; the model takes the first.
-- A float64 property is its integer part, and the percentage of classify is given by its
-- comparisons.
mod Prelude
pub mod Failure
pub mod Contracts
pub mod Diskstate
pub mod Ratelimit
pub mod Ingest
pub mod Policyadmin
pub mod Sdktest
pub mod Adminauth
pub mod Analytics
pub mod Maintenance
pub mod Httpapi
