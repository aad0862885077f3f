-- ===== src/Projects.antt =====
-- services/projects.py: work projects, whose accounts are leased to outside workers by tokens.
pub mod Model
pub mod Lease
pub mod Manage
pub mod Act
mod Claiming
mod Oldest
mod Tokens
mod Ending
pub mod System
mod Changes
mod Exclusion
mod Accounting
mod Samples
mod Tests
mod Invariant
mod Heartbeat
mod Counting
