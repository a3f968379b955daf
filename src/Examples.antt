-- ===== src/Examples.antt =====
-- The theorems at concrete inputs.
mod Texts
mod Ledger
mod Tree
mod Session
mod Runs
mod Calls
mod Plans
mod Files
mod Patches
