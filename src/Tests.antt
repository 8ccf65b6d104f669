-- ===== src/Tests.antt =====
-- Concrete inputs, and the theorems applied to them.
mod Data
mod Hooks
mod Sending
mod Requests
mod Checks
mod Batches
mod Flows
mod Models
mod Fans
mod Images
mod Normals
mod Addresses
mod Runs
