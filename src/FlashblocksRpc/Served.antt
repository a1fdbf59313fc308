-- ===== src/FlashblocksRpc/Served.antt =====
-- What is served of the pending block: `get_block` and `transform_tx` of
-- crates/flashblocks-rpc/src/cache.rs. The hash and the fields of a block and the fees of a
-- transaction are those of reth and alloy.
pub mod Listed
use rollup_boost.Prelude.{
  ℕ, suc, ◌+◌, ◌^◌, ◌%◌, Bool, true, false, List, [], ◌∷◌, Option, none, some, map, if◌then◌else◌,
  ◌≡◌,
}
use rollup_boost.Prelude.Attempt.{Attempt, done, ◌>>=◌, expect}
use rollup_boost.Engine.{Address, B256}
use rollup_boost.FlashblocksRpc.Cache.{Chain, FlashblocksCacheInner, CacheError, or_zero}

-- All of them, or none where one is missing.
unfoldable pub collect : {A : Type 0} → List (Option A) → Option (List A)
collect [] = some []
collect (none ∷ os) = none
collect (some a ∷ os) = elim (collect os) [ none ↦ none | some as_ ↦ some (a ∷ as_) ]

unfoldable pub zip : {A B : Type 0} → List A → List B → List (A × B)
zip [] bs = []
zip (a ∷ as_) [] = []
zip (a ∷ as_) (b ∷ bs) = (a, b) ∷ zip as_ bs

-- The parts of a block that are read here; the signers of a block are those of its transactions.
pub record View (chain : Chain) : Type 0 where
  pub hash_slow : chain.Block → B256
  pub number : chain.Block → ℕ
  pub base_fee_per_gas : chain.Block → Option ℕ
  pub recover_signers : chain.Block → Option (List Address)
  pub is_deposit : chain.Tx → Bool
  pub effective_tip_per_gas : chain.Tx → ℕ → Option ℕ
  pub max_fee_per_gas : chain.Tx → ℕ
  pub recover_signers_each :
      (b : chain.Block)
      → recover_signers b ≡ collect (map chain.recover_signer (chain.transactions b))

pub record TransactionInfo : Type 0 where
  pub hash : Option B256
  pub block_hash : Option B256
  pub block_number : Option ℕ
  pub index : Option ℕ
  pub base_fee : Option ℕ

module _ (chain : Chain) (view : View chain) where
  pub record Transaction : Type 0 where
    pub tx : chain.Tx
    pub from : Address
    pub block_hash : Option B256
    pub block_number : Option ℕ
    pub transaction_index : Option ℕ
    pub effective_gas_price : Option ℕ
    pub deposit_nonce : Option ℕ
    pub deposit_receipt_version : Option ℕ

  pub data BlockTransactions : Type 0 where
    full : List Transaction → BlockTransactions
    hashes : List B256 → BlockTransactions

  -- The header of `block`, sealed with its hash.
  pub record RpcBlock : Type 0 where
    pub block : chain.Block
    pub hash : B256
    pub transactions : BlockTransactions
    pub uncles : List B256
    pub withdrawals : Option (List ℕ)

  -- The addition is one of `u128`, which wraps.
  abbrev pub price_at : chain.Tx → Option ℕ → ℕ
  price_at tx none = view.max_fee_per_gas tx
  price_at tx (some base_fee) =
      (or_zero chain (view.effective_tip_per_gas tx base_fee) + base_fee) % 2 ^ 128

  unfoldable pub transform_tx : chain.Tx × Address → TransactionInfo → Transaction
  transform_tx (tx, signer) info = record {
    tx = tx;
    from = signer;
    block_hash = info.block_hash;
    block_number = info.block_number;
    transaction_index = info.index;
    effective_gas_price = some (if view.is_deposit tx then 0 else price_at tx info.base_fee);
    deposit_nonce = none;
    deposit_receipt_version = none;
  }

  -- The `map` over the transactions with their senders, from an index on.
  unfoldable pub convert : chain.Block → ℕ → List (chain.Tx × Address) → List Transaction
  unfolding transform_tx
  convert block idx [] = []
  convert block idx ((tx, sender) ∷ rest) =
      transform_tx (tx, sender)
        (record {
          hash = some (chain.tx_hash tx);
          block_hash = some (view.hash_slow block);
          block_number = some (view.number block);
          index = some idx;
          base_fee = view.base_fee_per_gas block;
        })
      ∷ convert block (suc idx) rest

  abbrev pub rpc_block : chain.Block → BlockTransactions → RpcBlock
  rpc_block block txs = record {
    block = block;
    hash = view.hash_slow block;
    transactions = txs;
    uncles = [];
    withdrawals = some [];
  }

  abbrev pub shown : Bool → chain.Block → Attempt CacheError RpcBlock
  shown true block = do
    signers ← expect (view.recover_signers block)
    done (rpc_block block (full (convert block 0 (zip (chain.transactions block) signers))))
  shown false block = done (rpc_block block (hashes (map chain.tx_hash (chain.transactions block))))

  abbrev pub shown_if : Bool → Option chain.Block → Attempt CacheError (Option RpcBlock)
  shown_if is_full none = done none
  shown_if is_full (some block) = do b ← shown is_full block; done (some b)

  -- `FlashblocksCacheInner::get_block`.
  unfoldable pub get_block :
      Bool → FlashblocksCacheInner chain → Attempt CacheError (Option RpcBlock)
  unfolding convert zip
  get_block is_full c = shown_if is_full c.block
