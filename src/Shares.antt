-- ===== src/Shares.antt =====
-- services/shares.py: share links, which give anybody with their token access to an account's mail.
pub mod Model
pub mod Links
mod Access
mod Opening
mod Tests
