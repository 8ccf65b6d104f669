-- ===== src/Normalizer.antt =====
-- normalizer.py: the texts and images that are taken from an envelope, and the jobs of a subscription.
pub mod Clean
pub mod Images
pub mod Channels
pub mod Jobs
pub mod Sources
