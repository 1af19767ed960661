-- ===== src/Views.antt =====
-- shared/record_views.py: bounded pages over verified records. The session store, which checks
-- references and encodes cursors, is a parameter.
pub mod Paging
pub mod Window
pub mod Client
pub mod Operation
pub mod Bounded
pub mod Fitting
mod Tests
