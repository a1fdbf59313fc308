-- ===== src/Flashblocks/Envelope.antt =====
-- The envelope that a builder yields (crates/rollup-boost/src/flashblocks/service.rs).
use rollup_boost.Prelude.{
  List, [], ◌∷◌, ◌++◌, none, some, ◌≡◌, ◌≢◌, refl, ap, ◌∙◌, ◌⊎◌, inl, inr, nat_eq, get_last?,
  get_last?-snoc, append-nil, append_assoc, ok, err, arith, map-append,
}
use rollup_boost.Engine.{B256, Bytes, Withdrawal, ExecutionPayloadV1}
use rollup_boost.Payload.{
  PayloadVersion, OpExecutionPayloadEnvelope, version, transactions, gas_used, execution_payload,
}
use rollup_boost.Flashblocks.{
  ExecutionPayloadFlashblockDeltaV1, ExecutionPayloadBaseV1, FlashblocksPayloadV1, FlashblocksError,
  FlashblockBuilder, missing_payload, new, extend, join_deltas, envelope, build_envelope,
}
use rollup_boost.Flashblocks.Assembly.{IsStream, diffs, extend_all, extend_all_accepts}

-- The transactions of all deltas, one after the other, and the withdrawals.
abbrev pub every_transaction : List ExecutionPayloadFlashblockDeltaV1 → List Bytes
every_transaction [] = []
every_transaction (d ∷ ds) = d.transactions ++ every_transaction ds

abbrev pub every_withdrawal : List ExecutionPayloadFlashblockDeltaV1 → List Withdrawal
every_withdrawal [] = []
every_withdrawal (d ∷ ds) = d.withdrawals ++ every_withdrawal ds

join_deltas-every :
    (ds : List ExecutionPayloadFlashblockDeltaV1) (ts : List Bytes) (ws : List Withdrawal)
    → join_deltas ds (ts, ws) ≡ (ts ++ every_transaction ds, ws ++ every_withdrawal ds)
unfolding join_deltas
join_deltas-every [] ts ws = rw (append-nil ts, append-nil ws)
join_deltas-every (d ∷ ds) ts ws =
    join_deltas-every ds (ts ++ d.transactions) (ws ++ d.withdrawals) ∙ simp append_assoc

-- What an envelope says of the header, of the withdrawals' root if it has one, and of the root of the
-- parent's beacon block.
abbrev header : OpExecutionPayloadEnvelope → ExecutionPayloadV1
header e = (execution_payload e).payload_inner.payload_inner

abbrev HasWithdrawalsRoot : B256 → OpExecutionPayloadEnvelope → Type 0
HasWithdrawalsRoot root (OpExecutionPayloadEnvelope.v3 p) = Unit {0}
HasWithdrawalsRoot root (OpExecutionPayloadEnvelope.v4 p) =
    p.execution_payload.withdrawals_root ≡ root

abbrev parent_beacon_block_root : OpExecutionPayloadEnvelope → B256
parent_beacon_block_root (OpExecutionPayloadEnvelope.v3 p) = p.parent_beacon_block_root
parent_beacon_block_root (OpExecutionPayloadEnvelope.v4 p) = p.parent_beacon_block_root

-- What the envelope of a block says, given its base, its last delta and all of its deltas.
pub record Describes (x : ExecutionPayloadBaseV1) (last : ExecutionPayloadFlashblockDeltaV1)
    (ds : List ExecutionPayloadFlashblockDeltaV1) (v : PayloadVersion)
    (e : OpExecutionPayloadEnvelope) : Type 0 where
  pub of_version : version e ≡ v
  pub all_transactions : transactions e ≡ every_transaction ds
  pub all_withdrawals : (execution_payload e).payload_inner.withdrawals ≡ every_withdrawal ds
  pub last_gas_used : gas_used e ≡ last.gas_used
  pub last_state_root : (header e).state_root ≡ last.state_root
  pub last_receipts_root : (header e).receipts_root ≡ last.receipts_root
  pub last_logs_bloom : (header e).logs_bloom ≡ last.logs_bloom
  pub last_block_hash : (header e).block_hash ≡ last.block_hash
  pub base_parent : (header e).parent_hash ≡ x.parent_hash
  pub base_fee_recipient : (header e).fee_recipient ≡ x.fee_recipient
  pub base_prev_randao : (header e).prev_randao ≡ x.prev_randao
  pub base_number : (header e).block_number ≡ x.block_number
  pub base_gas_limit : (header e).gas_limit ≡ x.gas_limit
  pub base_timestamp : (header e).timestamp ≡ x.timestamp
  pub base_extra_data : (header e).extra_data ≡ x.extra_data
  pub base_fee : (header e).base_fee_per_gas ≡ x.base_fee_per_gas
  pub last_withdrawals_root : HasWithdrawalsRoot last.withdrawals_root e
  pub base_beacon_root : parent_beacon_block_root e ≡ x.parent_beacon_block_root

envelope-Describes :
    (x : ExecutionPayloadBaseV1) (last : ExecutionPayloadFlashblockDeltaV1)
    (ds : List ExecutionPayloadFlashblockDeltaV1) (v : PayloadVersion)
    → Describes x last ds v (envelope x last ds v)
unfolding envelope version transactions execution_payload gas_used
envelope-Describes x last ds PayloadVersion.v3 = record {
  of_version = refl;
  all_transactions = ap (λ r. r.0) (join_deltas-every ds [] []);
  all_withdrawals = ap (λ r. r.1) (join_deltas-every ds [] []);
  last_gas_used = refl;
  last_state_root = refl;
  last_receipts_root = refl;
  last_logs_bloom = refl;
  last_block_hash = refl;
  base_parent = refl;
  base_fee_recipient = refl;
  base_prev_randao = refl;
  base_number = refl;
  base_gas_limit = refl;
  base_timestamp = refl;
  base_extra_data = refl;
  base_fee = refl;
  last_withdrawals_root = tt;
  base_beacon_root = refl;
}
envelope-Describes x last ds PayloadVersion.v4 = record {
  of_version = refl;
  all_transactions = ap (λ r. r.0) (join_deltas-every ds [] []);
  all_withdrawals = ap (λ r. r.1) (join_deltas-every ds [] []);
  last_gas_used = refl;
  last_state_root = refl;
  last_receipts_root = refl;
  last_logs_bloom = refl;
  last_block_hash = refl;
  base_parent = refl;
  base_fee_recipient = refl;
  base_prev_randao = refl;
  base_number = refl;
  base_gas_limit = refl;
  base_timestamp = refl;
  base_extra_data = refl;
  base_fee = refl;
  last_withdrawals_root = refl;
  base_beacon_root = refl;
}

pub build_envelope_of_stream :
    (x : ExecutionPayloadBaseV1) (ps : List FlashblocksPayloadV1) (p : FlashblocksPayloadV1)
    (v : PayloadVersion)
    → IsStream x (ps ++ (p ∷ []))
    → (b : FlashblockBuilder) × (extend_all (ps ++ (p ∷ [])) new ≡ ok b)
      × (e : OpExecutionPayloadEnvelope) × (build_envelope v b ≡ ok e)
      × Describes x p.diff (diffs (ps ++ (p ∷ []))) v e
unfolding build_envelope
build_envelope_of_stream x ps p v s = (
  _,
  extend_all_accepts x (ps ++ (p ∷ [])) s,
  envelope x p.diff (diffs (ps ++ (p ∷ []))) v,
  rw (map-append (λ (q : FlashblocksPayloadV1). q.diff) ps (p ∷ []))
      (rw (get_last?-snoc (diffs ps) p.diff)),
  envelope-Describes x p.diff (diffs (ps ++ (p ∷ []))) v,
)

-- A builder has no base and no delta, or a base and a delta.
abbrev pub IsWellFormed : FlashblockBuilder → Type 0
IsWellFormed b =
    ((b.base ≡ none) × (b.flashblocks ≡ []))
    ⊎ ((x : ExecutionPayloadBaseV1) × (d : ExecutionPayloadFlashblockDeltaV1) × (b.base ≡ some x)
        × (get_last? b.flashblocks ≡ some d))

extend_shape :
    (p : FlashblocksPayloadV1) (b c : FlashblockBuilder)
    → extend p b ≡ ok c
    → (c.flashblocks ≡ b.flashblocks ++ (p.diff ∷ []))
      × ((c.base ≡ p.base) ⊎ (c.base ≡ b.base))
      × ((p.base ≡ none) → (c.base ≡ b.base) × (b.flashblocks ≢ []))
unfolding extend
extend_shape p b c h = ground arith

extended_base :
    (p : FlashblocksPayloadV1) (b c : FlashblockBuilder)
    → IsWellFormed b
    → extend p b ≡ ok c
    → (x : ExecutionPayloadBaseV1) × (c.base ≡ some x)
unfolding extend
extended_base p b c w h = ground (arith, extend_shape p b c h)

-- A well-formed builder that accepts a flashblock is well formed again.
pub extend-IsWellFormed :
    (p : FlashblocksPayloadV1) (b c : FlashblockBuilder)
    → IsWellFormed b
    → extend p b ≡ ok c
    → IsWellFormed c
extend-IsWellFormed p b c w h =
    let (x, e) = extended_base p b c w h in
    inr (x, p.diff, e, rw ((extend_shape p b c h).0) (get_last?-snoc b.flashblocks p.diff))

-- `MissingDelta` is unreachable: the only error of a well-formed builder is `MissingPayload`, and it
-- comes exactly when nothing has been accepted.
pub build_envelope_error :
    (v : PayloadVersion) (b : FlashblockBuilder) (e : FlashblocksError)
    → IsWellFormed b
    → build_envelope v b ≡ err e
    → (e ≡ missing_payload) × (b ≡ new)
unfolding build_envelope new
build_envelope_error v b e (inl (n, z)) h = ground arith
build_envelope_error v b e (inr (x, d, n, l)) h = ground arith
