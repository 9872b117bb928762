-- ===== src/Tests.antt =====
-- Tests: a small radio, key store and clock, and the theorems at concrete inputs.
mod World
mod Delivering
mod Recording
mod Storing
mod Scheduling
mod Deciding
mod Limiting
mod Updating
mod Restarting
mod Joining
