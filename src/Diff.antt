-- ===== src/Diff.antt =====
-- internal/diff: Git unified-diff artifacts parsed into bounded projections.
pub mod Limits
pub mod Quoted
pub mod Header
pub mod Builder
pub mod Rows
pub mod Records
pub mod Section
pub mod Scanner
