-- ===== src/FlashblocksRpc/Override/PendingCount.antt =====
-- The transaction count of the pending block (crates/flashblocks-rpc/src/rpc.rs over cache.rs).
use rollup_boost.Prelude.{ℕ, ◌+◌, ◌<◌, ◌^◌, ◌%◌, Bool, some, ◌≡◌, refl, ok}
use rollup_boost.Prelude.Attempt.{done}
use rollup_boost.Engine.{Address}
use rollup_boost.Flashblocks.{FlashblocksPayloadV1}
use rollup_boost.FlashblocksRpc.Cache.{Chain, FlashblocksCacheInner, process_inner}
use rollup_boost.FlashblocksRpc.Cache.Nonces.{signed_by, nonce_counts}
use rollup_boost.FlashblocksRpc.Override.{EthApi, by_number, pending, latest, get_transaction_count}

module _ (chain : Chain) {B E : Type 0} (to_rpc_block : Bool → chain.Block → B)
    (eth_api : EthApi B chain.RpcReceipt E) where
  -- After a flashblock that was taken, the pending transaction count of an address that has signed
  -- transactions of the pending block is the node's latest count and those, modulo 2 ^ 256.
  pub pending_count :
      (p : FlashblocksPayloadV1) (c d : FlashblocksCacheInner chain) (b : chain.Block) (a : Address)
      (n : ℕ)
      → process_inner chain p c ≡ done d
      → d.block ≡ some b
      → 0 < signed_by chain a (chain.transactions b)
      → eth_api.transaction_count a (some (by_number latest)) ≡ ok n
      → get_transaction_count chain to_rpc_block eth_api a (some (by_number pending)) d
        ≡ ok ((n + signed_by chain a (chain.transactions b)) % 2 ^ 256)
  unfolding get_transaction_count
  pending_count p c d b a n h k s e =
      rw (e, get_transaction_count) (rw (nonce_counts chain p c d b a h k s) refl)
