-- ===== src/Tests.antt =====
-- Examples: the theorems at work on one small cluster, and runs of the definitions.
mod Fixtures
mod Controlling
mod Manifests
mod Loading
mod Building
mod Merging
mod Recording
mod Repeating
mod Managing
mod Telling
mod Noticing
mod Isolating
mod Copying
