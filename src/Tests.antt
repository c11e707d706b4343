-- ===== src/Tests.antt =====
-- Concrete inputs of the theorems, and runs of the operations on them.
mod Num
mod Circuits
mod Trails
mod Routing
mod Polling
mod Service
mod Sinks
mod Serving
mod Requests
mod Stores
mod Wiring
mod Clients
mod Loads
mod Starting
