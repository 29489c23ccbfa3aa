-- ===== src/Lib.antt =====
-- MakiDoku is a manga library daemon in Go. This library models the parts of it that download
-- chapters, that read backups of other readers, that report reading progress to trackers, and that
-- search replacements for the titles of a source.
--
-- The program's parts. The repository (internal/db/repository.go, tables in internal/db/models.go)
-- holds the download queue: a table of rows, one for each chapter, with a status, a position and the
-- progress. The downloader (internal/downloader/queue.go) answers the requests of clients on the
-- queue, and its workers claim rows and work on them: they ask a source for the pages of a chapter,
-- fetch them (internal/downloader/worker.go), stage them on disk, and write an archive. The decoder
-- of backups (internal/tachibackup/decode.go, model.go) turns a document in the protobuf wire format
-- into records. It stands apart from the queue. The tracker worker (internal/tracker/sync.go) claims
-- jobs from another table of the repository and sends each to the provider of its binding. A
-- migration job (internal/api/migration_jobs.go) searches each of its titles in other sources and
-- picks a match by the similarity of titles (internal/migration).
--
-- The files:
--   Common, Common/...: numbers, lists, integers of 32 and 64 bits, results of fallible code.
--   Rows, Rows/...: the tables of the queue as lists of rows; SQL's UPDATE, DELETE and ORDER BY.
--   QueueStore: EnqueueChapter, UpdateQueueProgress, SaveQueuePageProgress, MarkQueueFailed.
--   QueueStore/Control: the changes of status, CompleteQueueDownload, YieldSupersededDownloads,
--     SetQueueOrder, RetryFailedQueueItemsBySource.
--   QueueStore/Claim, QueueStore/Claim/...: ClaimNextQueueItem with its gates.
--   QueueStore/Steps: a step relation with a constructor for each method. Invariant, Effects, Moves,
--     Calls, Reorder, Placed and Safety are about it; Yield, Outcomes and Enqueue about single methods.
--   Tachibackup, Tachibackup/...: Model is model.go; Wire, Messages, Metadata, Library and Document
--     are decode.go; Walk, Total, Codec, Entries, RoundTrip and Unknown are for the proofs. Matching is
--     matchSource of match.go; Matching/Precedence is about it.
--   Fetching, Fetching/Retries: retryFetchWith, retryDelayFor, WaitWithInterval.
--   PageRows: UpsertPages, with the pages that a source lists.
--   Downloader: the struct Queue and the requests Pause, Resume, Retry, Cancel, CancelAll, Reorder,
--     RetryFailedItems and the pauses. Downloader/Requests is about Reorder,
--     Downloader/Cancellation about Cancel.
--   Downloader/Selection: selectChapters, parseChapterRange; Downloader/Selection/Kept is about them.
--   Downloader/Policy: policyFor with its cache, claimOptions, NewQueue's defaults, and the table of
--     overrides. Downloader/Policy/Coherence and Overrides are about it.
--   Downloader/Process: interrupted, fail and their helpers; Downloader/Process/Run: process.
--     Unfinished, Gives, Completion and Pausing in Downloader/Process are about them.
--   Runes: Go's strings and unicode functions on lists of code points.
--   Migration/Match: Similarity and Match; Ranking and Best are about them. Migration/Clean: CleanTitle
--     and DeepQueries (internal/migration/deepsearch.go); Migration/Brackets and Reading are about
--     its brackets.
--   MigrationJob: the types of a job, selectTargets; MigrationJob/Search: searchTitle and what it
--     calls; MigrationJob/Outcome and Terminal are about its status, Order, Prefer and Choice
--     about the search by chapter count. MigrationJob/Life: subscribe,
--     publish, cancelAll, work, finish, complete and the manager; Life/Steps: what may happen to a job,
--     as step relations. Shape, Sound, Invariant, Delivery and Progress in Life are about it.
--     MigrationJob/Handlers: the requests that create and cancel jobs.
--   Tracker: the methods of the repository on tracker_sync_jobs; Tracker/Worker: ProcessOne, Run and
--     EnqueueForProgress. Due, Drain, Backlog, Running, Keys, History and Safety are about them.
--   Examples/...: the theorems at concrete data.
--
-- How the model corresponds to the code. A Go method that changes the database is a function from a
-- Store to a Result; an error leaves the transaction undone. A table is a list of rows in the order
-- of insertion. A request of a client is one step from a World to a World. The work on an item is a
-- function of a World that either goes on or has returned; before each of its accesses to the shared
-- state the rest of the daemon may do anything, as the function `others` of a Host says. A removal of
-- staged pages may fail, as `refuses` of a World says; the code goes on.
--
-- Parameters: the package protowire (Wire, and Codec with what its Append functions write), gzip,
-- http.DetectContentType, the parser of URLs and the file system, which are not of the repository.
-- The engine of a source, behind an interface in the code, and the archive writer are not modelled,
-- so the work on an item takes what they return as the fields of a Host.
--
-- The search for a title takes the engine and the context as the fields of a record too, and the
-- worker the providers of the trackers with their credentials. The tables of Unicode and the edit
-- distance of titles are parameters. A float64 that is a chapter number is its rank in the order of
-- float64, an integer; a bound of a range is one or NaN; a score is an exact fraction.
--
-- Fuel: the walk over the fields of a message takes one more than the length of the data, which is
-- enough since each round takes at least a tag. The loop of attempts counts down from the number of
-- retries. Everything else is structural.
--
-- Not modelled: errors of SQL and of the disk inside the repository, time, the waits themselves, the
-- columns that only the archive shows, and the other parts of the daemon (the clients of the
-- trackers, import of backups, engine, HTTP interface, settings, web client).
pub mod Common
pub mod Rows
pub mod QueueStore
pub mod Tachibackup
pub mod Fetching
pub mod PageRows
pub mod Runes
pub mod Migration
pub mod MigrationJob
pub mod Tracker
pub mod Downloader
pub mod Examples
