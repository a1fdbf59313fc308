-- ===== src/FlashblocksRpc/Cache.antt =====
-- `FlashblocksCache` of crates/flashblocks-rpc/src/cache.rs: the pending block, balances, nonces and
-- receipts that the flashblocks received so far amount to. Blocks, transactions and receipts of
-- reth and alloy are a parameter, and so is the parsing of the metadata, addresses and balances.
pub mod Taken
pub mod Atomic
pub mod Pending
pub mod Nonces
pub mod Receipts
use rollup_boost.Prelude.{
  ℕ, ◌+◌, ◌-◌, ◌^◌, ◌%◌, Bool, true, false, List, [], ◌∷◌, Option, none, some, if◌then◌else◌, ◌==◌,
  nat_eq, Result,
}
use rollup_boost.Prelude.Keys.{get, insert}
use rollup_boost.Prelude.Attempt.{Attempt, done, failed, panicked, ◌>>=◌, expect, need, try_result}
use rollup_boost.Engine.{Address, B256, ExecutionPayloadV3}
use rollup_boost.Payload.{PayloadVersion, execution_payload}
use rollup_boost.Flashblocks.{
  FlashblocksPayloadV1, FlashblocksError, FlashblockBuilder, extend, build_envelope,
}
use rollup_boost.Flashblocks

-- What reth and alloy provide. `Receipt` is a receipt of the metadata, `RpcReceipt` one that is
-- served; the L1 block info is handed through the receipts that are built.
pub record Chain : Type 1 where
  pub Block : Type 0
  pub Tx : Type 0
  pub Receipt : Type 0
  pub RpcReceipt : Type 0
  pub L1Info : Type 0
  pub parse_metadata : ℕ → Option (List (ℕ × Receipt) × List (ℕ × ℕ))
  pub try_into_block : ExecutionPayloadV3 → Option Block
  pub transactions : Block → List Tx
  pub tx_hash : Tx → B256
  pub hash_text : B256 → ℕ
  pub recover_signer : Tx → Option Address
  pub cumulative_gas_used : Receipt → ℕ
  pub log_count : Receipt → ℕ
  pub extract_l1_info : Block → Option L1Info
  pub build_receipt : Block → Tx → ℕ → Receipt → ℕ → ℕ → L1Info → Option (RpcReceipt × L1Info)
  pub parse_address : ℕ → Option Address
  pub parse_balance : ℕ → Option ℕ

pub data CacheError : Type 0 where
  bad_metadata bad_block bad_signer bad_address bad_balance : CacheError
  flashblocks : FlashblocksError → CacheError

module _ (chain : Chain) where
  open chain use {Block, Tx, Receipt, RpcReceipt, L1Info}

  pub record FlashblocksCacheInner : Type 0 where
    pub builder : FlashblockBuilder
    pub block : Option Block
    pub balance_cache : List (Address × ℕ)
    pub nonce_cache : List (Address × ℕ)
    pub receipts_cache : List (B256 × RpcReceipt)

  unfoldable pub new : FlashblocksCacheInner
  unfolding Flashblocks.new
  new = record {
    builder = Flashblocks.new;
    block = none;
    balance_cache = [];
    nonce_cache = [];
    receipts_cache = [];
  }

  unfoldable pub reset : FlashblocksCacheInner → FlashblocksCacheInner
  unfolding Flashblocks.new
  reset c = record c {
    builder = Flashblocks.new;
    block = none;
    balance_cache = [];
    nonce_cache = [];
    receipts_cache = [];
  }

  abbrev pub or_zero : Option ℕ → ℕ
  or_zero none = 0
  or_zero (some n) = n

  abbrev pub count_signer : Option Address → List (Address × ℕ) → List (Address × ℕ)
  count_signer none nonces = nonces
  count_signer (some from) nonces = insert from (or_zero (get from nonces) + 1) nonces

  -- The loop over the block's transactions: `nonce_map`, and then `all_receipts`.
  unfoldable pub count_nonces : List Tx → List (Address × ℕ) → List (Address × ℕ)
  count_nonces [] nonces = nonces
  count_nonces (tx ∷ txs) nonces = count_nonces txs (count_signer (chain.recover_signer tx) nonces)

  unfoldable pub find_receipts : List (ℕ × Receipt) → List Tx → Attempt CacheError (List Receipt)
  find_receipts known [] = done []
  find_receipts known (tx ∷ txs) = do
    r ← expect (get (chain.hash_text (chain.tx_hash tx)) known)
    rs ← find_receipts known txs
    done (r ∷ rs)

  -- `nonce_cache.insert` for each entry of `nonce_map`.
  unfoldable pub store_nonces : List (Address × ℕ) → List (Address × ℕ) → List (Address × ℕ)
  store_nonces [] cache = cache
  store_nonces ((a, n) ∷ nonces) cache = store_nonces nonces (insert a n cache)

  -- The loop that builds the receipts, from the transaction at an index on. `u64` wraps.
  unfoldable pub build_receipts :
      Block
      → List Tx
      → ℕ
      → List Receipt
      → ℕ
      → ℕ
      → L1Info
      → List (B256 × RpcReceipt)
      → Attempt CacheError (List (B256 × RpcReceipt))
  build_receipts block [] index rs gas_used next_log_index l1 cache = done cache
  build_receipts block (tx ∷ txs) index [] gas_used next_log_index l1 cache = panicked
  build_receipts block (tx ∷ txs) index (r ∷ rs) gas_used next_log_index l1 cache = do
    signer ← need bad_signer (chain.recover_signer tx)
    let own_gas = (chain.cumulative_gas_used r + 2 ^ 64 - gas_used) % 2 ^ 64
    (receipt, l1') ← expect (chain.build_receipt block tx index r own_gas next_log_index l1)
    build_receipts block txs (index + 1) rs (chain.cumulative_gas_used r)
        (next_log_index + chain.log_count r) l1' (insert (chain.tx_hash tx) receipt cache)

  -- `if !block.body.transactions.is_empty()`.
  unfoldable pub receipts_of_block :
      Block
      → List Tx
      → List Receipt
      → List (B256 × RpcReceipt)
      → Attempt CacheError (List (B256 × RpcReceipt))
  unfolding build_receipts
  receipts_of_block block [] rs cache = done cache
  receipts_of_block block (tx ∷ txs) rs cache = do
    l1 ← expect (chain.extract_l1_info block)
    build_receipts block (tx ∷ txs) 0 rs 0 0 l1 cache

  unfoldable pub store_balances :
      List (ℕ × ℕ) → List (Address × ℕ) → Attempt CacheError (List (Address × ℕ))
  store_balances [] cache = done cache
  store_balances ((address, balance) ∷ rest) cache = do
    a ← need bad_address (chain.parse_address address)
    b ← need bad_balance (chain.parse_balance balance)
    store_balances rest (insert a b cache)

  abbrev pub started : FlashblocksPayloadV1 → FlashblocksCacheInner → FlashblocksCacheInner
  started payload c = if payload.index == 0 then reset c else c

  -- What follows the block, over a cache whose builder is extended.
  unfoldable pub apply_block :
      List (ℕ × Receipt) × List (ℕ × ℕ)
      → Block
      → FlashblocksCacheInner
      → Attempt CacheError FlashblocksCacheInner
  unfolding count_nonces find_receipts store_nonces receipts_of_block store_balances
  apply_block metadata block c = do
    all_receipts ← find_receipts metadata.0 (chain.transactions block)
    receipts ← receipts_of_block block (chain.transactions block) all_receipts c.receipts_cache
    balances ← store_balances metadata.1 c.balance_cache
    done (record c {
      block = some block;
      balance_cache = balances;
      nonce_cache = store_nonces (count_nonces (chain.transactions block) []) c.nonce_cache;
      receipts_cache = receipts;
    })

  -- `FlashblocksCacheInner::process_payload`.
  unfoldable pub process_inner :
      FlashblocksPayloadV1 → FlashblocksCacheInner → Attempt CacheError FlashblocksCacheInner
  unfolding reset apply_block
  process_inner payload c = do
    metadata ← need bad_metadata (chain.parse_metadata payload.metadata)
    builder ← try_result flashblocks (extend payload (started payload c).builder)
    envelope ← try_result flashblocks (build_envelope PayloadVersion.v4 builder)
    block ← need bad_block (chain.try_into_block (execution_payload envelope))
    apply_block metadata block (record (started payload c) { builder = builder })

  -- `FlashblocksCache::process_payload` works on a clone, and stores it if nothing failed.
  abbrev pub stored :
      Attempt CacheError FlashblocksCacheInner
      → FlashblocksCacheInner
      → Attempt CacheError (Unit {0}) × FlashblocksCacheInner
  stored (done new_state) c = (done tt, new_state)
  stored (failed e) c = (failed e, c)
  stored panicked c = (panicked, c)

  unfoldable pub process_payload :
      FlashblocksPayloadV1
      → FlashblocksCacheInner
      → Attempt CacheError (Unit {0}) × FlashblocksCacheInner
  unfolding process_inner
  process_payload payload c = stored (process_inner payload c) c

  unfoldable pub get_balance : Address → FlashblocksCacheInner → Option ℕ
  get_balance a c = get a c.balance_cache

  unfoldable pub get_nonce : Address → FlashblocksCacheInner → Option ℕ
  get_nonce a c = get a c.nonce_cache

  unfoldable pub get_receipt : B256 → FlashblocksCacheInner → Option RpcReceipt
  get_receipt h c = get h c.receipts_cache
