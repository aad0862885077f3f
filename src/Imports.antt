-- ===== src/Imports.antt =====
-- services/imports.py: lists of accounts as text, and the batches that they are imported in.
pub mod Lines
pub mod Content
pub mod Model
pub mod Batch
pub mod Commit
pub mod Rollback
mod Split
mod RoundTrip
mod Leftover
mod Undoing
mod OwnEmails
mod Committing
mod Duplicates
mod Marking
mod Numbering
mod Reading
mod Staging
mod Samples
mod Tests
