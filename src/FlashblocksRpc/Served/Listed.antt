-- ===== src/FlashblocksRpc/Served/Listed.antt =====
-- A pending block can always be served (crates/flashblocks-rpc/src/cache.rs).
use rollup_boost.Prelude.{
  ℕ, suc, ◌+◌, ◌-◌, ◌%◌, ◌^◌, true, false, List, [], ◌∷◌, some, map, All, ◌≡◌, refl, sym, ◌∙◌,
  subst, nat_eq,
}
use rollup_boost.Prelude.Attempt.{done, expect, >>=-eq-done}
use rollup_boost.Engine.{Address, B256}
use rollup_boost.Flashblocks.{FlashblocksPayloadV1}
use rollup_boost.FlashblocksRpc.Cache.{
  Chain, FlashblocksCacheInner, CacheError, new, started, process_inner, build_receipts,
  receipts_of_block,
}
use rollup_boost.FlashblocksRpc.Cache.Taken.{process_inner_done, applied_fields}
use rollup_boost.FlashblocksRpc.Cache.Receipts.{step_built}
use rollup_boost.FlashblocksRpc.Cache.Pending.{receive, receive_keeps}
use rollup_boost.FlashblocksRpc.Served.{
  View, collect, zip, Transaction, full, hashes, transform_tx, convert, rpc_block, get_block,
}

module _ (chain : Chain) where
  abbrev pub IsSigned : chain.Tx → Type 0
  IsSigned tx = (signer : Address) × (chain.recover_signer tx ≡ some signer)

  built-AllSigned :
      (block : chain.Block) (txs : List chain.Tx) (i : ℕ) (rs : List chain.Receipt) (gas log : ℕ)
      (l1 : chain.L1Info) (cache out : List (B256 × chain.RpcReceipt))
      → build_receipts chain block txs i rs gas log l1 cache ≡ done out
      → All IsSigned txs
  unfolding build_receipts
  built-AllSigned block [] i rs gas log l1 cache out h = tt
  built-AllSigned block (tx ∷ txs) i [] gas log l1 cache out h = absurd cc
  built-AllSigned block (tx ∷ txs) i (r ∷ rs) gas log l1 cache out h =
      let (signer, e, q, l1', h') =
        step_built chain block tx txs i r rs (log + chain.log_count r) cache out
          (chain.recover_signer tx)
          (chain.build_receipt block tx i r ((chain.cumulative_gas_used r + 2 ^ 64 - gas) % 2 ^ 64)
            log l1)
          h in
      ((signer, e), built-AllSigned block txs (i + 1) rs _ _ l1' _ out h')

  block-AllSigned :
      (block : chain.Block) (txs : List chain.Tx) (rs : List chain.Receipt)
      (cache out : List (B256 × chain.RpcReceipt))
      → receipts_of_block chain block txs rs cache ≡ done out
      → All IsSigned txs
  unfolding receipts_of_block
  block-AllSigned block [] rs cache out h = tt
  block-AllSigned block (tx ∷ txs) rs cache out h =
      let (l1, _, k) = >>=-eq-done (expect {E = CacheError} (chain.extract_l1_info block)) _ h in
      built-AllSigned block (tx ∷ txs) 0 rs 0 0 l1 cache out k

  -- The transactions of the pending block have signers.
  abbrev ShowsSigned : FlashblocksCacheInner chain → Type 0
  ShowsSigned c = (b : chain.Block) → c.block ≡ some b → All IsSigned (chain.transactions b)

  taken-ShowsSigned :
      (p : FlashblocksPayloadV1) (c d : FlashblocksCacheInner chain)
      → ShowsSigned c
      → process_inner chain p c ≡ done d
      → ShowsSigned d
  taken-ShowsSigned p c d _ h b s =
      let t = process_inner_done chain p c d h in
      let (rs, _, is_shown, _, receipts) =
        applied_fields chain t.metadata t.b (record (started chain p c) { builder = t.builder }) d
          t.applied in
      let e : t.b ≡ b = (let f : some t.b ≡ some b = (sym is_shown ∙ s) in cc) in
      subst (λ z. All IsSigned (chain.transactions z)) e
        (block-AllSigned t.b (chain.transactions t.b) rs _ d.receipts_cache receipts)

  new-ShowsSigned : ShowsSigned (new chain)
  unfolding new
  new-ShowsSigned b h = absurd cc

  module _ (view : View chain) where
    -- The transactions as they are served, from an index on: each with the signer that is recovered
    -- from it, its index, and the hash and number of the block.
    abbrev pub IsListed : chain.Block → ℕ → List chain.Tx → List (Transaction chain view) → Type 0
    IsListed b i [] [] = Unit {0}
    IsListed b i [] (t ∷ ts) = ⊥
    IsListed b i (tx ∷ txs) [] = ⊥
    IsListed b i (tx ∷ txs) (t ∷ ts) =
        (t.tx ≡ tx)
        × (chain.recover_signer tx ≡ some t.from)
        × (t.block_hash ≡ some (view.hash_slow b))
        × (t.block_number ≡ some (view.number b))
        × (t.transaction_index ≡ some i)
        × IsListed b (suc i) txs ts

    signed_collects :
        (txs : List chain.Tx)
        → All IsSigned txs
        → (signers : List Address) × (collect (map chain.recover_signer txs) ≡ some signers)
          × ((b : chain.Block) (i : ℕ)
              → IsListed b i txs (convert chain view b i (zip txs signers)))
    unfolding collect zip convert transform_tx
    signed_collects [] h = ([], refl, λ b i. tt)
    signed_collects (tx ∷ txs) ((signer, e), rest) =
        let (signers, k, listed) = signed_collects txs rest in
        (signer ∷ signers, rw e (rw k refl), λ b i. (refl, e, refl, refl, refl, listed b (suc i)))

    -- Whatever flashblocks were received, in any order, and whichever of them failed: the pending
    -- block can be served without a panic. In full it lists the block's transactions in order, each
    -- with its recovered signer, its index and the hash and number of the block; else it lists their
    -- hashes.
    pub pending_block_served :
        (es : List FlashblocksPayloadV1) (b : chain.Block)
        → (receive chain es (new chain)).block ≡ some b
        → (ts : List (Transaction chain view)) × (get_block chain view true
              (receive chain es (new chain))
            ≡ done (some (rpc_block chain view b (full ts))))
          × IsListed b 0 (chain.transactions b) ts
          × (get_block chain view false (receive chain es (new chain))
              ≡ done (
                  some
                    (rpc_block chain view b (hashes (map chain.tx_hash (chain.transactions b))))))
    unfolding get_block
    pending_block_served es b h =
        let signed =
          receive_keeps chain ShowsSigned taken-ShowsSigned es (new chain) new-ShowsSigned b h in
        let (signers, e, listed) = signed_collects (chain.transactions b) signed in
        (
          convert chain view b 0 (zip (chain.transactions b) signers),
          rw h (rw (view.recover_signers_each b ∙ e) refl),
          listed b 0,
          rw h refl,
        )
