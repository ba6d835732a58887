-- ===== src/CoreUsers.antt =====
-- src/core_users.c: the users, their traffic rules, and the decisions and sums over them.
pub mod Data
pub mod Table
pub mod Authn
pub mod Rules
pub mod Authz
pub mod Acct
pub mod Export
pub mod Ledger
pub mod Flow
pub mod Hooks
pub mod Load
pub mod Sync
pub mod Loaded
pub mod SyncTable
pub mod Reload
pub mod Covers
pub mod Marks
pub mod Decide
pub mod Charge
pub mod Attribute
pub mod Distinct
mod Examples
mod SyncExamples
