-- ===== src/FlashblocksRpc.antt =====
-- The flashblocks RPC overlay (crates/flashblocks-rpc).
pub mod Cache
pub mod Override
pub mod Overlay
pub mod Served
