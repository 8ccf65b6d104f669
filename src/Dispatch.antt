-- ===== src/Dispatch.antt =====
-- main.py: the endpoints, the background work and the calls to other services.
pub mod Delivery
pub mod Ingest
pub mod Background
pub mod Batch
