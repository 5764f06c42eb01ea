-- ===== src/Lib.antt =====
-- A model of the documents backend: the budgets, the progress and the lifecycle of durable
-- executions, the paths of indexed files, datasets with their import and export, the
-- synchronisation of offline changes, the merge of entities and of those under review, and the
-- folders that a session may be given.
--
-- The program. A worker runs an execution (a chat turn, a summary) and reports it as events; the
-- backend keeps the log of each root execution and decides, in database transactions, what the
-- worker may do next. The ledger of an execution, its grants, its reservations and its guard
-- against repeated tool calls are projections of that log: every decision appends an event and
-- projects the log again.
--
-- Which file is which part:
--   Common             values shared by all: dictionaries in insertion order, lists as
--                      `Array.prototype` walks them, results of handlers, patterns on texts
--   Execution/Types, Events, Entity
--                      src/execution/execution-progress.ts (types), execution.entity.ts,
--                      execution-event.entity.ts, execution.constants.ts
--   Execution/Progress src/execution/execution-progress.ts: `project` is
--                      projectExecutionProgress, `apply_budget_event` applyBudgetEvent,
--                      `consume_budget_reservation` consumeBudgetReservation; Preserve carries a
--                      property of the budget through the pass, Totals, Starts and Conservation
--                      are about the counters
--   Execution/Budget   src/execution/inference-budget-policy.ts: Requests and ReservationRequests
--                      (validation), Policy (resolveEffectivePolicy), Checks (the asserts),
--                      Governed (governedBudgetStart, assertOperationBudgetProjection); Bounds,
--                      Used and SingleUse are proofs
--   Execution/RepeatGuard
--                      src/execution/exact-tool-repeat-guard.ts
--   Execution/Service  src/execution/execution.service.ts: Store (a root's rows and the saves),
--                      Grants (requestProgressGrant), Reserve (reserveOperationBudget); Outcomes,
--                      Matching, Kept, Repeat, Retry and Decisions are proofs
--   Execution/Limits   the invariant that a grant's hard limits hold in every log
--   Execution/Ingest   acceptEvents, validateIncomingEvent and validateOperationBudgetStart of
--                      execution.service.ts; Admission and Log are proofs
--   Execution/Lifecycle
--                      updateStatus, requeueStaleExecutions and the checks of state and operation
--                      events of execution.service.ts; Settled, Recovery, Losses, Exhausted,
--                      Replay and Attempts are proofs
--   IndexedFile        src/indexed-file/path.util.ts: Filename (sanitizeFilename), Scope
--                      (resolveSafePath); Contained is proofs
--   Dataset            src/dataset: Types and Store (the entities), Validation, Cleaning, Records,
--                      Source and Relations (dataset.service.ts), SchemaChange
--                      (analyzeSchemaChange), Csv/Infer and Csv/Export (dataset-csv.service.ts and
--                      the imports of dataset.controller.ts); Csv/Reader says what a CSV text
--                      means; Conforms, Cleaned, Edited, Linked, Sourced, Safe and the rest of Csv
--                      are proofs
--   Offline            src/offline/offline.service.ts: Sync (applySync, with the foreign keys of
--                      migrations/*-CreateDocs.ts, *-CreateMarks.ts and *-CreateComments.ts that
--                      delete rows with a resource), Changes (getChangesSince), Bundles
--                      (bundleResource, bundleThread, bundleProject); Kept, Repeated, Told and
--                      Bundled are proofs
--   Entity             src/entity: Store (the tables that refer to entities), Service (create,
--                      update and the translations of entity.service.ts), Merge (its merge); Named
--                      and Merged (names) and Linked (resources) are proofs, United says what a
--                      reader sees of a merge. Pending is mergeEntity and cancelMerge of
--                      src/pending-entity/pending-entity.service.ts, Confirm its confirmEntity and
--                      confirmEntities, Entries the rest of it; Cancelled, Confirmed, Materialized
--                      and Retranslated are proofs
--   FolderScope        src/assistant/folder-scope.validator.ts; Verdict is proofs
--   Each part's Tests  runs by evaluation, and the theorems at the inputs of those runs
--
-- How the model is built. Numbers are natural after the validation that the code does, and
-- `Math.max(0, n - 1)` is truncated subtraction. A handler is a function to `Result`, whose errors
-- are the HTTP exceptions; a message is kept up to the values that it quotes. A transaction takes
-- the store and gives the new one; the row locks make it run alone, so that an interleaving is a
-- sequence of transactions (`Reach`). `Fresh` holds the identifiers and the instant that a
-- transaction draws: one instant, where the code may read the clock more than once. All loops are
-- structural: over the log, over a list, over the segments of a path.
--
-- Left out: fields that only one literal can fill (`version`), the envelope's security and hash
-- members, the JSON of results (a text here), and keys of objects that are names of the prototype
-- (identifiers are UUIDs by validation). What looks at an event's raw JSON (rejectForbiddenData,
-- the contract validator) is the parameter `screen`. The redaction of a failure's message is done
-- before `update_status`. The file system is a parameter that answers `realpath` and `stat`, and
-- the query for stale executions is the caller's. `Runtime` holds what the datasets use of
-- JavaScript's numbers, dates and Unicode tables; the reader of CSV files is a third-party
-- package. `Database` answers for the numbers and the times of rows that a synchronisation writes,
-- for the resource that a row refers to, and for the deletions that its other keys refuse; a save
-- that it refuses ends the request. Members of its payloads that are no columns are left out. What
-- a worker does to the store when it claims an execution is a parameter. A record that is saved is
-- kept as JSON keeps it, without infinite numbers; the order of records that were created at once
-- is the query's. `Storage` answers for the files of a bundle, `Catalog` for the rows of other
-- modules that entities refer to. The modules of the backend that only read and write rows through
-- the database library are not modelled.
mod Common
pub mod Execution
pub mod IndexedFile
pub mod Dataset
pub mod Offline
pub mod FolderScope
pub mod Entity
