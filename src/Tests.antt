-- ===== src/Tests.antt =====
-- Runs of the models at concrete inputs, and uses of the theorems there.
mod Index
mod Wcc
mod Nodes
mod Time
mod Group
mod Writers
mod Monster
mod Ycsb
mod Logs
mod Bench
mod Flush
mod Instance
mod Memory
