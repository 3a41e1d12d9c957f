-- ===== src/Tests.antt =====
-- Data on which the development runs, and one concrete use of each theorem that has hypotheses.
mod Builds
mod Data
mod Runs
mod Parts
mod Interface
mod Loading
mod Ends
