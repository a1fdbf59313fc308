-- ===== src/FlashblocksRpc/Cache/Taken.antt =====
-- What a flashblock that is taken has gone through (crates/flashblocks-rpc/src/cache.rs).
use rollup_boost.Prelude.{
  ℕ, List, [], Option, none, some, ◌≡◌, refl, arith, Result, ok, err, nat_eq,
}
use rollup_boost.Prelude.Attempt.{Attempt, done, failed, panicked, ◌>>=◌, need, try_result}
use rollup_boost.Payload.{PayloadVersion, OpExecutionPayloadEnvelope, execution_payload}
use rollup_boost.Flashblocks.{
  FlashblocksPayloadV1, FlashblockBuilder, FlashblocksError, extend, build_envelope,
}
use rollup_boost.FlashblocksRpc.Cache.{
  Chain, FlashblocksCacheInner, CacheError, flashblocks, bad_metadata, bad_block, started,
  apply_block, store_nonces, count_nonces, receipts_of_block, store_balances, find_receipts,
  process_inner,
}

module _ (chain : Chain) where
  -- What has come of a flashblock that is taken: its metadata, the builder, the envelope and the block.
  pub record Taken (c d : FlashblocksCacheInner chain)
      (r : Result FlashblocksError FlashblockBuilder) : Type 0 where
    pub metadata : List (ℕ × chain.Receipt) × List (ℕ × ℕ)
    pub builder : FlashblockBuilder
    pub e : OpExecutionPayloadEnvelope
    pub b : chain.Block
    pub extended : r ≡ ok builder
    pub enveloped : build_envelope PayloadVersion.v4 builder ≡ ok e
    pub converted : chain.try_into_block (execution_payload e) ≡ some b
    pub applied : apply_block chain metadata b (record c { builder = builder }) ≡ done d

  block_taken :
      (metadata : List (ℕ × chain.Receipt) × List (ℕ × ℕ)) (o : Option chain.Block)
      (c d : FlashblocksCacheInner chain)
      → (need bad_block o >>= λ b. apply_block chain metadata b c) ≡ done d
      → (b : chain.Block) × (o ≡ some b) × (apply_block chain metadata b c ≡ done d)
  block_taken metadata none c d h = absurd cc
  block_taken metadata (some b) c d h = (b, refl, h)

  envelope_taken :
      (metadata : List (ℕ × chain.Receipt) × List (ℕ × ℕ))
      (r : Result FlashblocksError OpExecutionPayloadEnvelope) (c d : FlashblocksCacheInner chain)
      → (try_result flashblocks r >>= λ e.
          need bad_block (chain.try_into_block (execution_payload e)) >>= λ b.
          apply_block chain metadata b c)
        ≡ done d
      → (e : OpExecutionPayloadEnvelope) × (b : chain.Block) × (r ≡ ok e)
        × (chain.try_into_block (execution_payload e) ≡ some b)
        × (apply_block chain metadata b c ≡ done d)
  envelope_taken metadata (err x) c d h = absurd cc
  envelope_taken metadata (ok e) c d h =
      let (b, f, g) = block_taken metadata (chain.try_into_block (execution_payload e)) c d h in
      (e, b, refl, f, g)

  builder-Taken :
      (metadata : List (ℕ × chain.Receipt) × List (ℕ × ℕ))
      (r : Result FlashblocksError FlashblockBuilder) (c d : FlashblocksCacheInner chain)
      → (try_result flashblocks r >>= λ builder.
          try_result flashblocks (build_envelope PayloadVersion.v4 builder) >>= λ e.
          need bad_block (chain.try_into_block (execution_payload e)) >>= λ b.
          apply_block chain metadata b (record c { builder = builder }))
        ≡ done d
      → Taken c d r
  builder-Taken metadata (err x) c d h = absurd cc
  builder-Taken metadata (ok a) c d h =
      let (x, y, f, g, k) =
        envelope_taken metadata (build_envelope PayloadVersion.v4 a) (record c { builder = a }) d
          h in
      record {
        metadata = metadata;
        builder = a;
        e = x;
        b = y;
        extended = refl;
        enveloped = f;
        converted = g;
        applied = k;
      }

  payload-Taken :
      (o : Option (List (ℕ × chain.Receipt) × List (ℕ × ℕ)))
      (r : Result FlashblocksError FlashblockBuilder) (c d : FlashblocksCacheInner chain)
      → (need bad_metadata o >>= λ metadata. try_result flashblocks r >>= λ builder.
          try_result flashblocks (build_envelope PayloadVersion.v4 builder) >>= λ e.
          need bad_block (chain.try_into_block (execution_payload e)) >>= λ b.
          apply_block chain metadata b (record c { builder = builder }))
        ≡ done d
      → Taken c d r
  payload-Taken none r c d h = absurd cc
  payload-Taken (some m) r c d h = builder-Taken m r c d h

  pub process_inner_done :
      (p : FlashblocksPayloadV1) (c d : FlashblocksCacheInner chain)
      → process_inner chain p c ≡ done d
      → Taken (started chain p c) d (extend p (started chain p c).builder)
  unfolding process_inner
  process_inner_done p c d h =
      payload-Taken (chain.parse_metadata p.metadata) (extend p (started chain p c).builder)
        (started chain p c) d h

  receipts_found :
      (metadata : List (ℕ × chain.Receipt) × List (ℕ × ℕ)) (block : chain.Block)
      (c d : FlashblocksCacheInner chain) (found : Attempt CacheError (List chain.Receipt))
      → (found >>= λ rs.
          receipts_of_block chain block (chain.transactions block) rs c.receipts_cache
          >>= λ receipts. store_balances chain metadata.1 c.balance_cache >>= λ balances.
              done (record c {
                block = some block;
                balance_cache = balances;
                nonce_cache =
                    store_nonces chain
                      (count_nonces chain (chain.transactions block) [])
                      c.nonce_cache;
                receipts_cache = receipts;
              }))
        ≡ done d
      → (rs : List chain.Receipt) × (d.builder ≡ c.builder)
        × (d.block ≡ some block)
        × (d.nonce_cache
            ≡ store_nonces chain (count_nonces chain (chain.transactions block) []) c.nonce_cache)
        × (receipts_of_block chain block (chain.transactions block) rs c.receipts_cache
            ≡ done d.receipts_cache)
  receipts_found metadata block c d (done rs) h =
      (rs, ground arith, ground arith, ground arith, ground arith)
  receipts_found metadata block c d (failed e) h = absurd cc
  receipts_found metadata block c d panicked h = absurd cc

  -- What the caches hold after a block.
  pub applied_fields :
      (metadata : List (ℕ × chain.Receipt) × List (ℕ × ℕ)) (block : chain.Block)
      (c d : FlashblocksCacheInner chain)
      → apply_block chain metadata block c ≡ done d
      → (rs : List chain.Receipt) × (d.builder ≡ c.builder)
        × (d.block ≡ some block)
        × (d.nonce_cache
            ≡ store_nonces chain (count_nonces chain (chain.transactions block) []) c.nonce_cache)
        × (receipts_of_block chain block (chain.transactions block) rs c.receipts_cache
            ≡ done d.receipts_cache)
  unfolding apply_block
  applied_fields metadata block c d h =
      receipts_found metadata block c d (find_receipts chain metadata.0 (chain.transactions block))
        h
