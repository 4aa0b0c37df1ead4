-- ===== src/Tests.antt =====
-- Runs of the definitions at concrete inputs, and the theorems at inputs that meet their hypotheses.
mod Viewport
mod Watch
mod Presentation
mod Capacity
mod Digests
mod Diff
mod Repo
mod Review
mod Cache
mod Scanner
mod Refresh
mod Operations
