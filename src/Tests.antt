-- ===== src/Tests.antt =====
-- Sample inputs, runs of the code on them, and the theorems at inputs that meet their hypotheses.
mod Samples
mod Instances
mod Location
mod Stores
mod Replicas
mod Memorystore
mod Tracker
mod Signals
mod Sessions
mod Web
mod Clients
mod Clientgeo
