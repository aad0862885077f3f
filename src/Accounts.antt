-- ===== src/Accounts.antt =====
-- services/accounts.py and services/bulk.py: the accounts, their pages, and changes of many at once.
pub mod Model
pub mod Cursor
mod CursorTrip
pub mod Pages
pub mod Edit
pub mod Bulk
mod Inversion
pub mod Views
pub mod Previews
pub mod Fleet
pub mod Later
mod Versions
mod SingleUse
mod Suffix
mod Walk
pub mod SampleCodec
pub mod Samples
mod Tests
