-- ===== src/Tests/Serving.antt =====
-- The server's theorems on sample clients.
use rollup_boost.Prelude.{
  ℕ, ◌≡◌, refl, ◌⊎◌, true, false, List, [], ◌∷◌, Option, none, some, Result, ok, err,
}
use rollup_boost.Payload.{PayloadVersion, l2, builder, to_new_payload, gas_used}
use rollup_boost.Payload.Trace.{has_builder_payload, store, new}
use rollup_boost.Rpc
use rollup_boost.Selection.{select_block}
use rollup_boost.Server.{
  RollupBoostServer, done, panicked, enabled, dry_run, disabled, Call, fork_choice_updated,
  should_skip_unhealthy_builder,
}
use rollup_boost.Server.Handlers.{
  fork_choice_updated_v3, new_payload, fcu_forward, fcu_both, record_both, store_trace,
  remember_request, is_ok,
}
use rollup_boost.Server.Records.{update_remembered, builder_recorded}
use rollup_boost.Server.GetPayload.{
  get_payload, get_payload_both, builder_part, check_builder_payload, validate_with_l2, chosen,
  select_payload, fall_back, l2_payload_or_unavailable,
}
use rollup_boost.Server.Provenance.{get_payload_origin, HasOrigin}
use rollup_boost.Server.Fallback.{get_payload-Reports, Reports}
use rollup_boost.Server.Forkchoice.{
  fork_choice_updated_v3_l2_answers, builder_left_out, answer, l2_answer,
}
use rollup_boost.Server.Modes.{new_payload_l2_answers, dry_run_returns_l2}
use rollup_boost.Server.Twice.{second_request_panics}
use rollup_boost.Tests.Samples.{
  updated, deps, clients, server, state, attributes, l2_block, builder_block,
}

abbrev v3 : PayloadVersion
v3 = PayloadVersion.v3

has_payload_3 :
    has_builder_payload deps.hashes deps.ids 3 (server enabled true).payload_trace_context ≡ true
unfolding has_builder_payload store new rollup_boost.Prelude.Keys.get
    rollup_boost.Prelude.Keys.insert rollup_boost.Prelude.Keys.remove
has_payload_3 = refl

builder_served :
    (get_payload deps clients 3 v3 (server enabled false)).0 ≡ done (builder_block, builder)
unfolding get_payload get_payload_both builder_part check_builder_payload validate_with_l2
    select_payload chosen select_block gas_used fall_back l2_payload_or_unavailable to_new_payload
    has_builder_payload store new rollup_boost.Prelude.Keys.get rollup_boost.Prelude.Keys.insert
    rollup_boost.Prelude.Keys.remove Rpc.get_payload Rpc.new_payload
builder_served = refl

dry_served : (get_payload deps clients 3 v3 (server dry_run false)).0 ≡ done (l2_block, l2)
unfolding get_payload get_payload_both builder_part check_builder_payload validate_with_l2
    select_payload chosen select_block gas_used fall_back l2_payload_or_unavailable to_new_payload
    has_builder_payload store new rollup_boost.Prelude.Keys.get rollup_boost.Prelude.Keys.insert
    rollup_boost.Prelude.Keys.remove Rpc.get_payload Rpc.new_payload
dry_served = refl

get_payload_origin_example :
    HasOrigin deps clients (server enabled false) 3 v3 builder_block builder
get_payload_origin_example =
    get_payload_origin deps clients 3 v3 (server enabled false) builder_block builder builder_served

get_payload-Reports_example :
    let (o, t) = get_payload deps clients 3 v3 (server enabled false) in Reports o t.health
get_payload-Reports_example = get_payload-Reports deps clients 3 v3 (server enabled false)

fork_choice_updated_v3_l2_answers_example :
    (calls : List Call) × ((fork_choice_updated_v3 deps clients state
        (some attributes)
        (server enabled true)).0
      ≡ answer (l2_answer deps clients calls state (some attributes)))
fork_choice_updated_v3_l2_answers_example =
    fork_choice_updated_v3_l2_answers deps clients state (some attributes) (server enabled true)

builder_left_out_example :
    (fork_choice_updated_v3 deps clients state (some attributes) (server disabled true)).1.calls
    ≡ fork_choice_updated l2 state (some attributes) ∷ []
unfolding should_skip_unhealthy_builder
builder_left_out_example =
    builder_left_out deps clients state (some attributes) (server disabled true) refl

new_payload_l2_answers_example :
    ((new_payload deps clients (to_new_payload builder_block) (server enabled false)).0
      ≡ answer (
          Rpc.new_payload (
            clients.l2_new_payload
              (Call.new_payload builder (to_new_payload builder_block) ∷ [])
              (to_new_payload builder_block))))
    × ((new_payload deps clients (to_new_payload builder_block) (server enabled false)).1.calls
        ≡ Call.new_payload l2 (to_new_payload builder_block)
          ∷ Call.new_payload builder (to_new_payload builder_block)
          ∷ [])
unfolding should_skip_unhealthy_builder
new_payload_l2_answers_example =
    new_payload_l2_answers deps clients (to_new_payload builder_block) (server enabled false)

dry_run_returns_l2_example : l2 ≡ l2
dry_run_returns_l2_example =
    dry_run_returns_l2 deps clients 3 v3 (server dry_run false) l2_block l2 (λ c m. refl) refl
      dry_served

abbrev remembering : RollupBoostServer deps
remembering = record (server enabled true) {
  payload_to_fcu_request = (3, (state, some attributes)) ∷ [];
}

second_request_panics_example :
    (get_payload deps clients 3 v3 (get_payload deps clients 3 v3 remembering).1).0 ≡ panicked
second_request_panics_example =
    second_request_panics deps clients 3 v3 remembering (λ c m. refl) refl (has_payload_3, refl)
      (λ c. (builder_block, refl))

update_answered :
    (fork_choice_updated_v3 deps clients state (some attributes) (server enabled true)).0
    ≡ done updated
unfolding fork_choice_updated_v3 should_skip_unhealthy_builder fcu_forward fcu_both record_both
    store_trace remember_request Rpc.fork_choice_updated_v3
update_answered = refl

builder_has_it :
    has_builder_payload deps.hashes deps.ids 3
      (fork_choice_updated_v3 deps clients state
        (some attributes)
        (server enabled true)).1.payload_trace_context
    ≡ true
unfolding fork_choice_updated_v3 should_skip_unhealthy_builder fcu_forward fcu_both record_both
    store_trace remember_request Rpc.fork_choice_updated_v3 has_builder_payload store
    rollup_boost.Prelude.Keys.get rollup_boost.Prelude.Keys.insert rollup_boost.Prelude.Keys.remove
builder_has_it = refl

update_remembered_example :
    deps.requests.get 3
      (fork_choice_updated_v3 deps clients state
        (some attributes)
        (server enabled true)).1.payload_to_fcu_request
    ≡ some (state, some attributes)
unfolding should_skip_unhealthy_builder
update_remembered_example =
    update_remembered deps clients 3 state (some attributes) (server enabled true) updated refl refl
      update_answered refl

builder_recorded_example :
    (calls : List Call) × (is_ok (clients.builder_fork_choice_updated calls state (some attributes))
      ≡ true)
unfolding should_skip_unhealthy_builder
builder_recorded_example =
    builder_recorded deps clients 3 state attributes (server enabled true) updated refl
      update_answered refl builder_has_it
