-- ===== src/Repair.antt =====
-- `index_repair.py`: the journal of index repairs, the installation of a rebuilt index and its
-- rollback, and the controller that decides on them. SHA-256 is a parameter.
pub mod Phase
pub mod Transaction
pub mod Job
pub mod Install
pub mod Resume
pub mod Resumed
pub mod Settled
pub mod Validated
pub mod Closed
pub mod Stopped
pub mod Journal
pub mod Upstream
pub mod Attempt
pub mod Build
pub mod Untouched
pub mod Journaled
pub mod Tail
pub mod Prepared
pub mod Recovery
mod Tests
