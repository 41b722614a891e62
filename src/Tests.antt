-- ===== src/Tests.antt =====
-- The theorems at concrete inputs.
mod LogRuns
mod TornHeader
mod Records
mod Sums
mod Pages
mod Cache
mod Commits
mod Crashes
mod Checkpoints
mod Engine
