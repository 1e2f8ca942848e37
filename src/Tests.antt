-- ===== src/Tests.antt =====
-- Runs on small inputs, and the theorems at them.
mod Api
mod Chat
mod Connectivity
mod Data
mod Live
mod MapMotion
mod Packets
mod Socket
mod State
