-- ===== src/Tests/Replies.antt =====
-- The theorems on payloads, their trace, the RPC client and the selection of a block, on samples.
use rollup_boost.Prelude.{
  ◌≡◌, refl, true, false, List, [], ◌∷◌, none, some, Result, ok, length, arith,
}
use rollup_boost.Prelude.Keys
use rollup_boost.Engine.{PayloadStatus, ForkchoiceUpdated}
use rollup_boost.Payload.{
  PayloadVersion, OpExecutionPayloadEnvelope, PayloadSource, l2, builder, version, gas_used,
  transactions, tx_count, payload_attributes, execution_payload, to_new_payload,
  new_payload_version, new_execution_payload,
}
use rollup_boost.Payload.Trace.{
  PayloadTrace, new, store, has_builder_payload, trace_id, remove_by_parent_hash,
}
use rollup_boost.Payload.Trace.History.{
  Write, stored, removed, last_stored, run, has_builder_payload-run,
}
use rollup_boost.Rpc.{get_payload, ClientError}
use rollup_boost.Rpc.Validity.{get_payload-version}
use rollup_boost.Selection.{select_block, gas_used_policy}
use rollup_boost.Selection.Monotone.{select_block_mono}
use rollup_boost.Tests.Samples.{
  deps, tenths, l2_block, builder_block, envelope_v3, envelope_v4, good_status, updated,
}

abbrev Agrees : OpExecutionPayloadEnvelope → Type 0
Agrees p =
    let inner = (execution_payload p).payload_inner in
    (gas_used p ≡ inner.payload_inner.gas_used)
    × (transactions p ≡ inner.payload_inner.transactions)
    × (tx_count p ≡ length (transactions p))
    × ((payload_attributes p).timestamp ≡ inner.payload_inner.timestamp)
    × ((payload_attributes p).prev_randao ≡ inner.payload_inner.prev_randao)
    × ((payload_attributes p).suggested_fee_recipient ≡ inner.payload_inner.fee_recipient)
    × ((payload_attributes p).withdrawals ≡ some inner.withdrawals)

abbrev writes : List Write
writes = stored 3 7 true (some 1) ∷ removed 7 ∷ stored 3 7 false none ∷ []

builder_has_3 : has_builder_payload deps.hashes deps.ids 3 (run deps.hashes deps.ids writes) ≡ true
unfolding has_builder_payload run store new remove_by_parent_hash
    rollup_boost.Payload.Trace.remove_ids Keys.get Keys.insert Keys.remove
builder_has_3 = refl

has_builder_payload-run_example :
    (t : PayloadTrace) × (last_stored 3 writes ≡ some t) × (t.builder_has_payload ≡ true)
has_builder_payload-run_example =
    has_builder_payload-run deps.hashes deps.ids 3 writes builder_has_3

stored_under_7 :
    deps.hashes.get 7
      (store deps.hashes deps.ids 3 7 true none
        (new deps.hashes deps.ids)).block_hash_to_payload_ids
    ≡ some (3 ∷ [])
unfolding store new Keys.get Keys.insert Keys.remove
stored_under_7 = refl

abbrev received_status : Result ClientError PayloadStatus
received_status = ok good_status

abbrev received_update : Result ClientError ForkchoiceUpdated
received_update = ok updated

got_v4 :
    get_payload PayloadVersion.v4 (ok (envelope_v3 30 90)) (ok (envelope_v4 30 90))
    ≡ ok (OpExecutionPayloadEnvelope.v4 (envelope_v4 30 90))
unfolding get_payload
got_v4 = refl

get_payload-version_example :
    version (OpExecutionPayloadEnvelope.v4 (envelope_v4 30 90)) ≡ PayloadVersion.v4
get_payload-version_example =
    get_payload-version PayloadVersion.v4 (ok (envelope_v3 30 90)) (ok (envelope_v4 30 90))
      (OpExecutionPayloadEnvelope.v4 (envelope_v4 30 90)) got_v4

builder_chosen : (select_block tenths gas_used_policy l2_block builder_block).1 ≡ builder
unfolding select_block gas_used
builder_chosen = refl

select_block_mono_example :
    select_block tenths gas_used_policy builder_block l2_block ≡ (builder_block, builder)
unfolding gas_used
select_block_mono_example =
    select_block_mono tenths gas_used_policy l2_block builder_block builder_block l2_block
      (omega arith) (omega arith) builder_chosen
