-- ===== src/FlashblocksRpc/Override.antt =====
-- `FlashblocksApiExt` of crates/flashblocks-rpc/src/rpc.rs: the methods of the `eth` namespace that
-- answer from the flashblocks where the pending block is asked for. The node's own API is a
-- parameter.
pub mod PendingCount
use rollup_boost.Prelude.{
  ℕ, ◌+◌, ◌^◌, ◌%◌, Bool, true, false, Option, none, some, if◌then◌else◌, Result, ok, err,
}
use rollup_boost.Engine.{Address, B256}
use rollup_boost.FlashblocksRpc.Cache.{
  Chain, FlashblocksCacheInner, get_balance, get_nonce, get_receipt,
}

-- `BlockNumberOrTag`, and of `BlockId` the cases that matter; the default id is the latest block.
pub data BlockNumberOrTag : Type 0 where
  latest pending finalized safe earliest : BlockNumberOrTag
  number : ℕ → BlockNumberOrTag

pub data BlockId : Type 0 where
  by_number : BlockNumberOrTag → BlockId
  by_hash : B256 → BlockId

abbrev pub is_pending : BlockNumberOrTag → Bool
is_pending pending = true
is_pending _ = false

abbrev pub id_is_pending : BlockId → Bool
id_is_pending (by_number n) = is_pending n
id_is_pending (by_hash h) = false

abbrev pub unwrap_or_default : Option BlockId → BlockId
unwrap_or_default none = by_number latest
unwrap_or_default (some id) = id

-- The node's API, `B` its blocks, `R` its receipts and `E` its errors.
pub record EthApi (B R E : Type 0) : Type 0 where
  pub rpc_block : BlockNumberOrTag → Bool → Result E (Option B)
  pub transaction_receipt : B256 → Result E (Option R)
  pub balance : Address → Option BlockId → Result E ℕ
  pub transaction_count : Address → Option BlockId → Result E ℕ

module _ (chain : Chain) {B E : Type 0} (to_rpc_block : Bool → chain.Block → B)
    (eth_api : EthApi B chain.RpcReceipt E) where
  -- `FlashblocksCacheInner::get_block`; what is served of a block stands in Served.
  abbrev pub pending_block : Bool → Option chain.Block → Option B
  pending_block full none = none
  pending_block full (some b) = some (to_rpc_block full b)

  unfoldable pub get_block : Bool → FlashblocksCacheInner chain → Option B
  get_block full c = pending_block full c.block

  unfoldable pub block_by_number :
      BlockNumberOrTag → Bool → FlashblocksCacheInner chain → Result E (Option B)
  unfolding get_block
  block_by_number n full c =
      if is_pending n then ok (get_block full c) else eth_api.rpc_block n full

  abbrev pub or_receipt :
      Result E (Option chain.RpcReceipt)
      → Option chain.RpcReceipt
      → Result E (Option chain.RpcReceipt)
  or_receipt own none = own
  or_receipt own (some r) = ok (some r)

  unfoldable pub get_transaction_receipt :
      B256 → FlashblocksCacheInner chain → Result E (Option chain.RpcReceipt)
  get_transaction_receipt h c = or_receipt (eth_api.transaction_receipt h) (get_receipt chain h c)

  abbrev pub or_balance : Result E ℕ → Option ℕ → Result E ℕ
  or_balance own none = own
  or_balance own (some n) = ok n

  unfoldable pub balance_of : Address → Option BlockId → FlashblocksCacheInner chain → Result E ℕ
  balance_of a block_number c =
      if id_is_pending (unwrap_or_default block_number)
      then or_balance (eth_api.balance a block_number) (get_balance chain a c)
      else eth_api.balance a block_number

  -- `latest_count + U256::from(count)`, which wraps at 256 bits.
  abbrev pub plus_cached : Result E ℕ → Option ℕ → Result E ℕ → Result E ℕ
  plus_cached own count (err e) = err e
  plus_cached own none (ok n) = own
  plus_cached own (some k) (ok n) = ok ((n + k) % 2 ^ 256)

  unfoldable pub get_transaction_count :
      Address → Option BlockId → FlashblocksCacheInner chain → Result E ℕ
  get_transaction_count a block_number c =
      if id_is_pending (unwrap_or_default block_number)
      then plus_cached (eth_api.transaction_count a block_number) (get_nonce chain a c)
          (eth_api.transaction_count a (some (by_number latest)))
      else eth_api.transaction_count a block_number
