-- ===== src/Tests.antt =====
-- The theorems at concrete inputs, and runs of the models on small data.
mod Uploads
mod Blocks
mod Paths
mod Failures
mod Handles
mod Globs
mod Tokens
mod Requests
mod Caches
mod Mutations
mod Readings
mod Messages
mod Openings
