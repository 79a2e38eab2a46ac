-- ===== src/Examples.antt =====
-- Concrete runs: each applies a theorem to a small state of the program.
mod Data
mod Client
mod Server
mod Bans
mod Breakers
mod Sending
mod Tables
mod Healths
mod Triggering
mod Running
mod Scheduling
mod Messages
