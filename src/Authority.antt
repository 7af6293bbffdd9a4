-- ===== src/Authority.antt =====
-- The CA side of the command line, src/src/bin/grafhome-ca.rs: what enrollment, revocation and
-- `apply ca` change on the CA host, step by step, with every error on the way.
pub mod Action
pub mod Machine
pub mod Health
pub mod Install
pub mod Dead
pub mod Ledger
pub mod Coverage
pub mod Site
pub mod Revoke
pub mod Commands
pub mod Approve
pub mod Retries
pub mod Rollback
pub mod Outcomes
pub mod Tombstones
pub mod Untouched
pub mod FailSafe
pub mod Refused
pub mod Listing
pub mod Covered
pub mod Samples
mod Tests
