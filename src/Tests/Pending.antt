-- ===== src/Tests/Pending.antt =====
-- The theorems on the cache of flashblocks, on a chain whose blocks are lists of transactions.
use rollup_boost.Prelude.{
  false, true, map, ℕ, ◌+◌, ◌^◌, ◌%◌, ◌≡◌, refl, List, [], ◌∷◌, none, some, ok, arith,
}
use rollup_boost.Prelude.Attempt.{done}
use rollup_boost.Prelude.Keys
use rollup_boost.Payload.{execution_payload}
use rollup_boost.Flashblocks.{extend, build_envelope, into_envelope, envelope}
use rollup_boost.Flashblocks
use rollup_boost.FlashblocksRpc.Cache.{
  Chain, FlashblocksCacheInner, new, reset, count_nonces, find_receipts, store_nonces,
  build_receipts, receipts_of_block, store_balances, apply_block, process_inner, process_payload,
}
use rollup_boost.FlashblocksRpc.Cache.Pending.{receive}
use rollup_boost.FlashblocksRpc.Override.{EthApi, by_number, pending, get_transaction_count}
use rollup_boost.FlashblocksRpc.Override.PendingCount.{pending_count}
use rollup_boost.FlashblocksRpc.Served.{
  View, collect, Transaction, full, hashes, rpc_block, get_block,
}
use rollup_boost.FlashblocksRpc.Served.Listed.{IsListed, pending_block_served}
use rollup_boost.Tests.Blocks.{first, second, both, one}

-- Transactions 21 and 22, both signed by address 1, with receipts.
abbrev chain : Chain
chain = record {
  Block = List ℕ;
  Tx = ℕ;
  Receipt = ℕ;
  RpcReceipt = ℕ;
  L1Info = Unit {0};
  parse_metadata = λ m. some ((21, 21) ∷ (22, 43) ∷ [], (1, 5) ∷ []);
  try_into_block = λ p. some (p.payload_inner.payload_inner.transactions);
  transactions = λ b. b;
  tx_hash = λ t. t;
  hash_text = λ h. h;
  recover_signer = λ t. some 1;
  cumulative_gas_used = λ r. r;
  log_count = λ r. 1;
  extract_l1_info = λ b. some tt;
  build_receipt = λ b t i r g l x. some (g, tt);
  parse_address = λ a. some a;
  parse_balance = λ b. some b;
}

abbrev node : EthApi ℕ ℕ ℕ
node = record {
  rpc_block = λ n full. ok none;
  transaction_receipt = λ h. ok none;
  balance = λ a b. ok 0;
  transaction_count = λ a b. ok 7;
}

block_shown : (receive chain (first ∷ second ∷ []) (new chain)).block ≡ some (21 ∷ 22 ∷ [])
unfolding receive process_payload process_inner reset apply_block count_nonces find_receipts
    store_nonces receipts_of_block build_receipts store_balances new extend build_envelope
    into_envelope Flashblocks.new Keys.get Keys.insert Keys.remove execution_payload envelope
block_shown = refl

-- A cache with the first flashblock, and what it is with the second.
abbrev with_first : FlashblocksCacheInner chain
with_first = record {
  builder = one;
  block = some (21 ∷ []);
  balance_cache = (1, 5) ∷ [];
  nonce_cache = (1, 1) ∷ [];
  receipts_cache = (21, 21) ∷ [];
}

abbrev with_both : FlashblocksCacheInner chain
with_both = record {
  builder = both;
  block = some (21 ∷ 22 ∷ []);
  balance_cache = (1, 5) ∷ [];
  nonce_cache = (1, 2) ∷ [];
  receipts_cache = (22, 22) ∷ (21, 21) ∷ [];
}

second_taken : process_inner chain second with_first ≡ done with_both
unfolding process_inner reset apply_block count_nonces find_receipts store_nonces receipts_of_block
    build_receipts store_balances extend build_envelope into_envelope Flashblocks.new Keys.get
    Keys.insert Keys.remove execution_payload envelope
second_taken = refl

pending_count_example :
    get_transaction_count chain {B = ℕ} (λ full b. 0) node 1 (some (by_number pending)) with_both
    ≡ ok ((7 + 2) % 2 ^ 256)
pending_count_example =
    pending_count chain (λ full b. 0) node second with_first with_both (21 ∷ 22 ∷ []) 1 7
      second_taken refl (omega arith) refl

-- A block is hashed to 80 and has number 12; its transactions are no deposits.
abbrev view : View chain
view = record {
  hash_slow = λ b. 80;
  number = λ b. 12;
  base_fee_per_gas = λ b. some 1;
  recover_signers = λ b. collect (map chain.recover_signer b);
  is_deposit = λ t. false;
  effective_tip_per_gas = λ t f. some t;
  max_fee_per_gas = λ t. t;
  recover_signers_each = λ b. refl;
}

pending_block_served_example :
    (ts : List (Transaction chain view)) × (get_block chain view true
        (receive chain (first ∷ second ∷ []) (new chain))
      ≡ done (some (rpc_block chain view (21 ∷ 22 ∷ []) (full ts))))
    × IsListed chain view (21 ∷ 22 ∷ []) 0 (21 ∷ 22 ∷ []) ts
    × (get_block chain view false (receive chain (first ∷ second ∷ []) (new chain))
        ≡ done (some (rpc_block chain view (21 ∷ 22 ∷ []) (hashes (21 ∷ 22 ∷ [])))))
pending_block_served_example =
    pending_block_served chain view (first ∷ second ∷ []) (21 ∷ 22 ∷ []) block_shown
