-- ===== src/Tests.antt =====
-- Runs of the modelled code at small inputs, and the theorems at concrete ones.
mod Data
mod XlogRuns
mod Names
mod Catalogue
mod Policies
mod Queue
mod Annotated
mod Scripts
mod Forks
mod Locked
mod Served
mod Synced
mod Deleted
mod Stored
mod Rows
mod Options
