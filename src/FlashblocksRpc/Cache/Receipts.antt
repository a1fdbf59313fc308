-- ===== src/FlashblocksRpc/Cache/Receipts.antt =====
-- The receipts that the cache serves (crates/flashblocks-rpc/src/cache.rs).
use rollup_boost.Prelude.{
  ℕ, ◌+◌, ◌-◌, ◌%◌, ◌^◌, List, [], ◌∷◌, Option, none, some, ◌≡◌, refl, ◌⊎◌, inl, inr, ◌∙◌, sym,
  subst, arith, ◌==◌, nat_eq, nat_beq_iff, if◌then◌else◌, Any,
}
use rollup_boost.Prelude.Keys.{get, insert, get-insert}
use rollup_boost.Prelude.Attempt.{done, ◌>>=◌, need, expect}
use rollup_boost.Engine.{B256, Address}
use rollup_boost.Flashblocks.{FlashblocksPayloadV1}
use rollup_boost.FlashblocksRpc.Cache.{
  Chain, FlashblocksCacheInner, CacheError, bad_signer, started, process_inner, build_receipts,
  receipts_of_block, get_receipt,
}
use rollup_boost.FlashblocksRpc.Cache.Taken.{process_inner_done, applied_fields}

module _ (chain : Chain) where
  abbrev pub HasReceipt : List (B256 × chain.RpcReceipt) → B256 → Type 0
  HasReceipt cache h = (r : chain.RpcReceipt) × (get h cache ≡ some r)

  inserted :
      (h : B256) (r : chain.RpcReceipt) (cache : List (B256 × chain.RpcReceipt)) (k : B256)
      → (k ≡ h) ⊎ HasReceipt cache k
      → HasReceipt (insert h r cache) k
  inserted h r cache k (inl e) = (r, ground (arith, get-insert h k r cache, nat_beq_iff h k))
  inserted h r cache k (inr (q, e)) =
      (if h == k then r else q, ground (arith, get-insert h k r cache, nat_beq_iff h k))

  -- A step of the loop, by what the signer and the builder of the receipt say.
  pub step_built :
      (block : chain.Block) (tx : chain.Tx) (txs : List chain.Tx) (i : ℕ) (r : chain.Receipt)
      (rs : List chain.Receipt) (log : ℕ) (cache out : List (B256 × chain.RpcReceipt))
      (o : Option Address) (built : Option (chain.RpcReceipt × chain.L1Info))
      → (need bad_signer o >>= λ signer. expect built >>= λ (receipt, l1').
          build_receipts chain block txs
            (i + 1)
            rs
            (chain.cumulative_gas_used r)
            log
            l1'
            (insert (chain.tx_hash tx) receipt cache))
        ≡ done out
      → (signer : Address) × (o ≡ some signer)
        × (receipt : chain.RpcReceipt) × (l1' : chain.L1Info) × (build_receipts chain block txs
              (i + 1)
              rs
              (chain.cumulative_gas_used r)
              log
              l1'
              (insert (chain.tx_hash tx) receipt cache)
            ≡ done out)
  step_built block tx txs i r rs log cache out none built h = absurd cc
  step_built block tx txs i r rs log cache out (some a) none h = absurd cc
  step_built block tx txs i r rs log cache out (some a) (some (q, l)) h = (a, refl, q, l, h)

  built-HasReceipt :
      (block : chain.Block) (txs : List chain.Tx) (i : ℕ) (rs : List chain.Receipt) (gas log : ℕ)
      (l1 : chain.L1Info) (cache out : List (B256 × chain.RpcReceipt)) (k : B256)
      → build_receipts chain block txs i rs gas log l1 cache ≡ done out
      → Any (λ tx. chain.tx_hash tx ≡ k) txs ⊎ HasReceipt cache k
      → HasReceipt out k
  unfolding build_receipts
  built-HasReceipt block [] i rs gas log l1 cache out k h (inl m) = absurd m
  built-HasReceipt block [] i rs gas log l1 cache out k h (inr (q, e)) = (q, ground arith)
  built-HasReceipt block (tx ∷ txs) i [] gas log l1 cache out k h m = absurd cc
  built-HasReceipt block (tx ∷ txs) i (r ∷ rs) gas log l1 cache out k h m =
      let (_, _, q, l1', h') =
        step_built block tx txs i r rs (log + chain.log_count r) cache out (chain.recover_signer tx)
          (chain.build_receipt block tx i r ((chain.cumulative_gas_used r + 2 ^ 64 - gas) % 2 ^ 64)
            log l1)
          h in
      built-HasReceipt block txs (i + 1) rs (chain.cumulative_gas_used r) (log + chain.log_count r)
        l1' (insert (chain.tx_hash tx) q cache) out k h' (passed m q)
    where
      passed :
          Any (λ t. chain.tx_hash t ≡ k) (tx ∷ txs) ⊎ HasReceipt cache k
          → (q : chain.RpcReceipt)
          → Any (λ t. chain.tx_hash t ≡ k) txs ⊎ HasReceipt (insert (chain.tx_hash tx) q cache) k
      passed (inl (inl e)) q = inr (inserted (chain.tx_hash tx) q cache k (inl (sym e)))
      passed (inl (inr m)) q = inl m
      passed (inr m) q = inr (inserted (chain.tx_hash tx) q cache k (inr m))

  block-HasReceipt :
      (block : chain.Block) (txs : List chain.Tx) (rs : List chain.Receipt)
      (cache out : List (B256 × chain.RpcReceipt)) (k : B256)
      → receipts_of_block chain block txs rs cache ≡ done out
      → Any (λ tx. chain.tx_hash tx ≡ k) txs
      → HasReceipt out k
  unfolding receipts_of_block
  block-HasReceipt block [] rs cache out k h m = absurd m
  block-HasReceipt block (tx ∷ txs) rs cache out k h m = go (chain.extract_l1_info block) h
    where
      go :
          (o : Option chain.L1Info)
          → (expect {E = CacheError} o >>= λ l1.
              build_receipts chain block (tx ∷ txs) 0 rs 0 0 l1 cache)
            ≡ done out
          → HasReceipt out k
      go none h' = absurd cc
      go (some l1) h' = built-HasReceipt block (tx ∷ txs) 0 rs 0 0 l1 cache out k h' (inl m)

  -- After a flashblock that was taken, every transaction of the pending block has a receipt.
  pub every_receipt_cached :
      (p : FlashblocksPayloadV1) (c d : FlashblocksCacheInner chain) (b : chain.Block) (k : B256)
      → process_inner chain p c ≡ done d
      → d.block ≡ some b
      → Any (λ tx. chain.tx_hash tx ≡ k) (chain.transactions b)
      → (r : chain.RpcReceipt) × (get_receipt chain k d ≡ some r)
  unfolding get_receipt
  every_receipt_cached p c d b k h s m =
      let t = process_inner_done chain p c d h in
      let (rs, same, shown, nonces, receipts) =
        applied_fields chain t.metadata t.b (record (started chain p c) { builder = t.builder }) d
          t.applied in
      let e : t.b ≡ b = (let f : some t.b ≡ some b = (sym shown ∙ s) in cc) in
      block-HasReceipt t.b (chain.transactions t.b) rs (started chain p c).receipts_cache
        d.receipts_cache k receipts
        (subst (λ z. Any (λ tx. chain.tx_hash tx ≡ k) (chain.transactions z)) (sym e) m)
