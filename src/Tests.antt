-- ===== src/Tests.antt =====
-- Runs of the model on concrete inputs, and the theorems at inputs that meet their hypotheses.
mod Machine
mod Ranges
mod Tasks
mod Regions
mod Threads
mod Snapshot
mod Process
mod Reopened
mod Ends
mod Device
mod Module
mod Hook
mod Files
mod Counts
mod Memory
mod Take
mod System
