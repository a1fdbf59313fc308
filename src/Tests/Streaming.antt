-- ===== src/Tests/Streaming.antt =====
-- The server in flashblocks mode, with the block of two flashblocks that its builder streams.
use rollup_boost.Prelude.{
  ℕ, ◌≡◌, refl, ◌⊎◌, true, false, List, [], ◌∷◌, Option, none, some, Result, ok,
}
use rollup_boost.Engine.{PayloadStatus}
use rollup_boost.Payload.{
  PayloadVersion, OpExecutionPayloadEnvelope, l2, builder, to_new_payload, gas_used,
}
use rollup_boost.Payload.Trace.{has_builder_payload, store, new}
use rollup_boost.Flashblocks.{extend, into_envelope, build_envelope, envelope}
use rollup_boost.Flashblocks
use rollup_boost.Flashblocks.Service.{take_best_payload, reset_builder, accepts_event, apply_event}
use rollup_boost.Flashblocks.Service
use rollup_boost.Flashblocks.Service.Locks.{
  Section, event_checked, event_applied, section, sections, fresh, set_current_payload_id,
}
use rollup_boost.Flashblocks.Service.Locks
use rollup_boost.Rpc
use rollup_boost.Selection.{select_block}
use rollup_boost.Server.{Call, RollupBoostServer, done, enabled, fork_choice_updated}
use rollup_boost.Server.GetPayload.{
  get_payload, get_payload_both, builder_part, check_builder_payload, validate_with_l2, chosen,
  select_payload, fall_back, l2_payload_or_unavailable,
}
use rollup_boost.Server.Approval.{l2_payload}
use rollup_boost.Server.WithFlashblocks.{
  Builder, service_after, with_service, IsFromBuilder, get_payload_of_stream,
}
use rollup_boost.Tests.Samples.{updated, deps, clients, server, state, attributes, builder_block}
use rollup_boost.Tests.Blocks.{base, delta, first, second}

-- Two flashblocks follow every update.
abbrev streamed : List Call → List Section
streamed [] = []
streamed (c ∷ cs) = event_checked first ∷ event_applied ∷ event_checked second ∷ event_applied ∷ []

abbrev streaming : Builder
streaming = record {
  payload_id_optimism = λ h a n. 3;
  fork_choice_updated_answer = λ cs f a. ok updated;
  get_payload_answer = λ cs i v. ok builder_block;
  between = streamed;
  gaps = λ cs n. [];
}

abbrev block : OpExecutionPayloadEnvelope
block = envelope base (delta 22) (delta 21 ∷ delta 22 ∷ []) PayloadVersion.v4

abbrev asked : RollupBoostServer deps
asked = record (server enabled false) {
  calls = fork_choice_updated builder state (some attributes) ∷ [];
}

block_served :
    (get_payload deps (with_service streaming clients) 3 PayloadVersion.v4 asked).0
    ≡ done (block, builder)
unfolding get_payload get_payload_both builder_part check_builder_payload validate_with_l2
    select_payload chosen select_block gas_used fall_back l2_payload_or_unavailable to_new_payload
    has_builder_payload store new rollup_boost.Prelude.Keys.get rollup_boost.Prelude.Keys.insert
    rollup_boost.Prelude.Keys.remove Rpc.get_payload Rpc.new_payload service_after sections section
    fresh Locks.fork_choice_updated_v3 Service.new Locks.get_payload set_current_payload_id
    reset_builder accepts_event apply_event extend Flashblocks.new take_best_payload into_envelope
    build_envelope envelope
block_served = refl

get_payload_of_stream_example :
    ((builder ≡ l2)
      × (calls : List Call) × (l2_payload deps
            (with_service streaming clients)
            calls
            3
            PayloadVersion.v4
          ≡ ok block))
    ⊎ ((builder ≡ builder)
        × IsFromBuilder streaming 3 PayloadVersion.v4 block
        × (told : List Call) × (status : PayloadStatus) × (Rpc.new_payload
              (clients.l2_new_payload told (to_new_payload block))
            ≡ ok status))
get_payload_of_stream_example =
    get_payload_of_stream streaming deps clients 3 PayloadVersion.v4 asked block builder refl
      block_served
