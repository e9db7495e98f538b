-- ===== src/Tests.antt =====
-- The theorems at concrete inputs.
mod Recovery
mod Sandbox
mod Session
mod Compaction
mod Harness
mod Progress
mod Resume
mod Providers
