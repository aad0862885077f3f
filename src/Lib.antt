-- ===== src/Lib.antt =====
-- Smart Email Manager: a model of its job system, accounts, imports, work projects
-- and mail shares, and what is proved of them.
--
-- The program keeps its state in PostgreSQL. The HTTP API (src/smart_email_manager/api) and the
-- worker processes (src/smart_email_manager/jobs/worker.py) share nothing but the tables: the API's
-- services create, pause, resume and cancel jobs, and the workers lease the items of open jobs, run
-- a handler on each and write its outcome. Every service function is one transaction. It is modelled
-- as a function from the tables to the tables, with an error where the source raises, and the
-- concurrency of processes as an arbitrary sequence of these transactions.
--
-- Prelude     tests on numbers, tables as lists of rows with SELECT, UPDATE and count, str.strip
-- Json        the JSON objects that the services store
-- Problem     api/problems.py: errors by status and code; a transaction that raises is rolled back
-- Jobs.Model  the rows Job, JobItem and JobEvent of db/models.py, the enums of domain/enums.py
-- Jobs.Queue  jobs/queue.py. Claim: lease_next_item with LEASE_SQL. Summary: _refresh_job_summary.
--             Settle: recover_expired_leases, finish_item, retry_item, cancel_pending_items
-- Jobs.Control, Jobs.Create
--             services/jobs.py: pause, resume, cancel, finalize_pausing_jobs; the creation of jobs
-- Jobs.Worker jobs/worker.py: run_once
-- Jobs.System the steps that workers and API calls take on the tables, in any order; a worker claims
--             only while no worker of its name holds a lease
-- Jobs.Machine
--             the table of what cancel, pause and resume do to a job in each status
-- Projects    services/projects.py over the rows WorkProject, ProjectAccount and ProjectEvent. Lease:
--             claim_project_account, _leased_row, heartbeat and finish. Manage: creation, status,
--             accounts, _serialize_project. Act: mutate_project_accounts and the listings. System:
--             the transactions in any order and the deletions of accounts, which cascade to the rows,
--             with the token's holder told apart from the others
-- Shares      services/shares.py over EmailShareLink
-- Audit, Enums
--             add_audit_log of services/audit.py; the statuses of domain/enums.py
-- Accounts    services/accounts.py. Pages: list_accounts with its filters. Cursor: the text of its
--             cursors. Edit: creation, update under a row version, archival, purge. Bulk:
--             bulk_mutate_accounts.
--             Previews: services/bulk.py. Views: services/views.py. Fleet:
--             services/fleet.py
-- Encryption  security/encryption.py: AccountSecretCipher over AES-GCM
-- Imports     services/imports.py over ImportBatch and ImportBatchItem. Lines and Content: the parser.
--             Batch: create_import_batch. Commit: commit_import_batch. Rollback: its undoing
-- The other files under Jobs, Projects, Shares, Accounts and Imports hold the proofs, each named for
-- what it proves.
--
-- Identifiers (UUIDs in the source) and times (seconds) are native numbers, and an id that the
-- database or the process makes up is an argument. `now` is the time of the database's transaction
-- and `wall` the clock of the process. FOR UPDATE SKIP LOCKED is the argument `locked`, the test for
-- rows that another transaction holds. The loops of the source go over lists of rows and are
-- structural recursion. Only the client of Accounts.Walk, who follows the cursors of list_accounts,
-- runs on fuel: the pages that it asks for, of which one more than there are accounts is enough.
-- Counters are Python integers, without wrap-around.
--
-- Not modelled: the columns updated_at and the text of messages; the mail providers, the HTTP
-- layer, the command line, the configuration, the key rotation, and the services of mail, codes,
-- retention, proxies and forwarding. The handlers of jobs and the pass of the schedules are
-- arguments of the worker's round; SHA-256 and the random tokens are arguments of the projects'
-- leases and of the shares; str.lower, LIKE, email_validator, uuid.UUID, AES-GCM, the base64, JSON
-- and ISO texts of a cursor and the JSON of a view's filters are those of the accounts and imports. The
-- change of a bulk preview, stored as JSON, stands for its JSON. SQLAlchemy and PostgreSQL are taken to do what the
-- statements say: a transaction is atomic and a unique key is enforced.
pub mod Prelude
pub mod Problem
pub mod Jobs
pub mod Accounts
pub mod Audit
pub mod Encryption
pub mod Enums
pub mod Imports
pub mod Json
pub mod Projects
pub mod Shares
