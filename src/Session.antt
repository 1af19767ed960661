-- ===== src/Session.antt =====
-- shared/session_cas.py: the store of one session, whose references expire when it closes.
pub mod Scope
pub mod Holds
pub mod Failing
pub mod References
pub mod Parts
pub mod Exec
pub mod Backend
pub mod Store
pub mod Datasets
pub mod Bundle
pub mod Operations
pub mod Cursors
pub mod Closing
pub mod Sound
pub mod Keeping
pub mod Methods
pub mod Bundles
pub mod Calls
pub mod Refusals
pub mod Yields
pub mod Served
mod Memory
mod Tests
pub mod Tokens
mod Coding
pub mod Bound
mod CursorTests
