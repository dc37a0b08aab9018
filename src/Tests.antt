-- ===== src/Tests.antt =====
-- The theorems at concrete inputs.
mod Collation
mod Joint
mod Client
mod Web
mod Times
mod Listings
mod Pools
mod Sample
mod Rules
mod Deliveries
mod Shown
mod Simulated
mod Startup
mod Streams
mod System
