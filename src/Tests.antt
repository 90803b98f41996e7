-- ===== src/Tests.antt =====
-- The theorems at concrete inputs.
mod Streams
mod Applied
mod Products
mod Collections
mod Entities
mod Chunks
