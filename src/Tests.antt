-- ===== src/Tests.antt =====
-- Runs of the definitions at concrete inputs.
mod Leaves
mod Stores
mod Journals
mod Keyed
mod Trees
mod Writes
mod Filesystem
