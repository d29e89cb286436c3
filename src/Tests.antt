-- ===== src/Tests.antt =====
-- Runs of the definitions at concrete inputs, and the theorems applied to them.
mod Framing
mod Bodies
mod Joining
mod Sessions
mod Storage
mod Trackers
mod Connections
mod Queue
mod Identity
