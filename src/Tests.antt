-- ===== src/Tests.antt =====
-- Concrete sessions that the theorems are applied to.
mod Data
mod Sessions
mod Recoveries
mod Deliveries
mod Catalogs
mod Transcripts
mod Services
mod Connections
mod Loads
mod Runs
mod Turns
mod Frames
mod Objects
mod Sockets
