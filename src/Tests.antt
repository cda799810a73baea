-- ===== src/Tests.antt =====
-- The theorems at concrete data, one module for each component.
mod Rules
mod Merging
mod Planning
mod Conditions
mod Policies
mod Directories
mod Diffs
mod Throttles
mod Reports
mod Windows
mod Parameters
mod Memory
mod Files
mod Renderings
mod Queues
mod Sessions
mod Accounts
mod Archives
mod Sweeps
mod Outboxes
mod Lockouts
