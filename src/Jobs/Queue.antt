-- ===== src/Jobs/Queue.antt =====
-- jobs/queue.py. Each function is one transaction: it takes the tables and returns them as they
-- are after its commit. `now` is the database's clock, `wall` the process's `datetime.now(UTC)`, and
-- `locked` says which item rows another transaction holds, which SKIP LOCKED passes over.
pub mod Summary
pub mod Claim
pub mod Settle
