-- ===== src/Tests.antt =====
-- Each theorem at a concrete input that meets its hypotheses, and runs of the code.
mod Lifecycle
mod Passes
mod Stores
mod Cores
mod Calls
mod Events
mod Hosts
mod Loop
