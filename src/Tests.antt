-- ===== src/Tests.antt =====
-- Runs of the modelled methods on concrete data, and the theorems at such data.
pub mod Requests
pub mod Configs
pub mod Days
pub mod Flexible
pub mod Guards
pub mod Leaves
pub mod Attending
pub mod Addresses
pub mod Signing
pub mod Accounts
pub mod Decisions
