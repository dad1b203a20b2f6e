-- ===== src/Examples.antt =====
-- Tests of the library's parameters and of its theorems at concrete inputs.
mod Sample
mod Records
mod Queue
mod Status
mod Refusals
mod Knowledge
mod Learning
mod Review
mod Snapshots
mod Sessions
mod Documents
