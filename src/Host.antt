-- ===== src/Host.antt =====
-- shared/host_failures.py: the failures that a host may show, and what it lets through of an error of
-- the runtime.
pub mod Codes
pub mod Presentation
pub mod Shape
pub mod Details
pub mod Failure
pub mod Presented
pub mod Mapping
pub mod Fields
pub mod Redacted
mod Tests
