-- ===== src/Tests.antt =====
-- The theorems at concrete inputs.
mod Publishing
mod Turns
mod Agents
mod Leasing
mod Recovering
mod Archives
mod Exports
mod Stored
mod Daemons
mod Serving
mod Collecting
