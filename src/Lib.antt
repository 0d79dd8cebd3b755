-- ===== src/Lib.antt =====
-- A verification library for the OCR API of marriage registers (src/marriage_ocr_api): batches of
-- scanned documents, the OCR jobs of their pages, and the records that reviewers correct.
--
-- The program. A batch has documents, a document has jobs, and a job that completes imports the
-- records of its output. A job is changed through db/repositories.py, and its row is also
-- updated directly by jobs/gemini_batch.py, which hands jobs back as pending; after each change the
-- services recompute the status of its document and then of its batch from the statuses below
-- them. A record is changed only under its version, and each change appends a revision. A OneDrive
-- link is a submission of a batch: a run claims it, downloads and classifies its files, and makes
-- a document with its jobs of each one that can be routed; the others stay on the submission as
-- skipped files, for a reviewer. An export shows the approved records of a batch as a table.
--
-- The files and the code.
--   Prelude          Boolean tests, lists, dictionaries, sorting, `str.strip`, `str.lower` and
--                    decimals
--   Status           jobs/status.py, batches/status.py, records/status.py, onedrive/status.py
--   DocumentType     batches/status.py; Routing: onedrive/classification.py and the tables of
--                    jobs/runner.py that a type selects
--   Db               Rows: db/models.py, batches/models.py, records/models.py,
--                    onedrive/models.py; Table: SELECT, UPDATE and DELETE on a list of rows;
--                    Result: the exceptions
--   Batches          Repository and Recompute: batches/repositories.py (the two functions
--                    recompute_document_status and recompute_batch_status); Service:
--                    batches/service.py; Ingest: batches/document_ingest.py
--   Jobs             Repository: db/repositories.py; Lifecycle: sequences of its calls; Service:
--                    jobs/service.py; Processing: jobs/processing.py; Gemini,
--                    Submission, Tick: jobs/gemini_batch.py; Runner, Paths: jobs/runner.py,
--                    jobs/paths.py
--   Records          Repository: records/repositories.py; Service: records/service.py; History,
--                    Review, Correction, Bulk, Creation, Audit: what holds of them;
--                    NotRecorded: records/not_recorded.py
--   Onedrive         Repository: onedrive/repositories.py; Lifecycle: sequences of its calls;
--                    Classification, Ingest, Fetch, Service, Skips, Reclassify:
--                    onedrive/service.py; Intake: onedrive/local_intake.py and the checks
--                    of storage/local.py
--   Exports          exports/service.py; Order: the ORDER BY of its rows; Artifacts: the rows of
--                    the table of exports
--   Users            auth/user_admin.py, auth/repositories.py, auth/service.py, auth/models.py
--   Examples         concrete rows, and the theorems applied to them
-- Functions, columns and settings keep the names of the code, less a leading underscore.
--
-- The model. The database is a record of tables, a table the list of its rows in the order in
-- which an unordered SELECT yields them. A function that changes the database takes it and returns
-- it; one that may raise returns a `Result`, and a raise that rolls back leaves the caller with the
-- database that it had. UUIDs and instants are numbers; the id of a new row and the instants that
-- an operation reads are arguments, and one operation reads one instant where the code reads the
-- clock for each row. A confidence is the multiple of 2^-1074 that its double is. A JSON value is a
-- text, null, or anything else by its truth value and its `str()`.
--
-- What the code gets from outside is an argument: the executor of `retry_job`; and, in the record
-- `World`, what the storage, the OCR process, its output file and the `marriage-ocr` command
-- answer in one run, and what other sessions commit meanwhile, which may be any change of the
-- database. `SubmitAnswers`, `Finish` and `TickWorld` are the same for the commands of a Gemini
-- batch. The executor that a scheduler pass hands jobs to is taken to accept them; their ids are
-- in the result. In the same way `Onedrive.Fetch.World`, `Runner`, `Outside`, `Answers`,
-- `Refetch`, `Reclassify` and `Storage` hold what the download, the classifier, the storage, the
-- PDF library and the executors answer to a run or a request, and `Texts` the regular expressions
-- and the normalizer of records/not_recorded.py. A ClassifyError is `none`, and any other
-- exception of the classifier an error. In a fetch run the rows that other sessions change
-- meanwhile are not interleaved, except for the row of the submission itself in
-- Onedrive.Lifecycle.
--
-- A reference to a row of another table is checked where the code handles the error that its
-- absence raises: for a new submission and a new record. The job that `retry_job` loaded keeps its
-- values over a commit, as the sessions of the program do.
--
-- Loops are recursions on the list they walk. The only fuel is that of `decimal`, which prints the
-- digits of a number and has the number itself as fuel, more than it has digits.
--
-- Not modelled: the HTTP routes and schemas, downloads, logging, configuration, the session and
-- its SQL, the subprocess and its threads, file and object storage, the Celery glue, migrations
-- and scripts, which are I/O or calls of libraries; and, so far, row parsing in
-- records/importer.py, request tokens, the activity log, and most of the ordered and filtered
-- listings.
pub mod Prelude
pub mod Status
pub mod DocumentType
pub mod Db
pub mod Batches
pub mod Jobs
pub mod Records
pub mod Examples
pub mod Exports
pub mod Onedrive
pub mod Users
