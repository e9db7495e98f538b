-- ===== src/Rpc.antt =====
-- The crate crates/localpilot-rpc: the framing of the stdio protocols.
pub mod Framing
