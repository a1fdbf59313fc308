-- ===== src/Server/Repeat.antt =====
-- A payload that is asked for twice while state roots are computed outside
-- (crates/rollup-boost/src/server.rs).
use rollup_boost.Prelude.{
  Bool, true, false, List, Option, none, some, ◌≡◌, refl, if◌then◌else◌, Result, ok, err, nat_eq,
}
use rollup_boost.Engine.{PayloadId}
use rollup_boost.Payload.{PayloadVersion, OpExecutionPayloadEnvelope, l2, builder}
use rollup_boost.Payload.Trace.{has_builder_payload}
use rollup_boost.Rpc.{RpcClientError}
use rollup_boost.Server.{
  is_disabled, Deps, FcuRequest, Call, Env, RollupBoostServer, Outcome, done, failed, panicked,
  awaited, and_then, caught, attempt, ◌>>=◌, return, paired,
}
use rollup_boost.Server.Handlers.{builder_get_payload, l2_get_payload}
use rollup_boost.Server.GetPayload.{
  builder_part, get_payload_l2_only, get_payload_both, get_payload, check_builder_payload,
  calculate_external_state_root, take_request, taken_request, received_from_builder, failed_result,
  result_of, validate_with_l2,
}

and_then-panicked :
    {S A B : Type 0} (m : Outcome A × S) (f : A → S → Outcome B × S)
    → m.0 ≡ panicked
    → (and_then m f).0 ≡ panicked
and_then-panicked (done a, s) f h = absurd cc
and_then-panicked (failed e, s) f h = absurd cc
and_then-panicked (panicked, s) f h = refl

caught-panicked : {S A : Type 0} (m : Outcome A × S) → m.0 ≡ panicked → (caught m).0 ≡ panicked
caught-panicked (done a, s) h = absurd cc
caught-panicked (failed e, s) h = absurd cc
caught-panicked (panicked, s) h = refl

module _ (d : Deps) (env : Env) (id : PayloadId) (v : PayloadVersion) where
  -- The builder has a payload for the id, and the server computes state roots outside.
  abbrev pub Awaits : RollupBoostServer d → Type 0
  Awaits s =
      (has_builder_payload d.hashes d.ids id s.payload_trace_context ≡ true)
      × (s.external_state_root ≡ true)

  -- The builder hands it out whenever it is asked.
  abbrev pub Delivers : Type 0
  Delivers =
      (calls : List Call)
      → (b : OpExecutionPayloadEnvelope) × (env.builder_get_payload calls id v ≡ ok b)

  abbrev pub IsForgotten : RollupBoostServer d → Type 0
  IsForgotten s = d.requests.get id s.payload_to_fcu_request ≡ none

  take_panics :
      (o : Option FcuRequest) (s : RollupBoostServer d)
      → o ≡ none
      → (taken_request d env id o s).0 ≡ panicked
  take_panics none s h = refl
  take_panics (some r) s h = absurd cc

  external_panics :
      (p : OpExecutionPayloadEnvelope) (s : RollupBoostServer d)
      → IsForgotten s
      → (calculate_external_state_root d env p id v s).0 ≡ panicked
  unfolding calculate_external_state_root
  external_panics p s f = and_then-panicked (take_request d env id s) _ (take_panics _ s f)

  check_panics :
      (p : OpExecutionPayloadEnvelope) (s : RollupBoostServer d)
      → s.external_state_root ≡ true
      → IsForgotten s
      → (check_builder_payload d env id v p s).0 ≡ panicked
  unfolding check_builder_payload
  check_panics p s x f = go s.external_state_root x
    where
      go :
          (b : Bool)
          → b ≡ true
          → (if b
              then (calculate_external_state_root d env p id v >>= λ a. return (result_of a)) s
              else validate_with_l2 d env p s).0
            ≡ panicked
      go true e = and_then-panicked _ _ (external_panics p s f)
      go false e = absurd cc

  received_panics :
      (r : Result RpcClientError OpExecutionPayloadEnvelope) (s : RollupBoostServer d)
      → (b : OpExecutionPayloadEnvelope) × (r ≡ ok b)
      → s.external_state_root ≡ true
      → IsForgotten s
      → (received_from_builder d env id v r s).0 ≡ panicked
  received_panics (ok p) s e x f = check_panics p s x f
  received_panics (err e) s (b, h) x f = absurd cc

  part_panics :
      (s : RollupBoostServer d)
      → Awaits s
      → Delivers
      → IsForgotten s
      → (builder_part d env id v s).0 ≡ panicked
  unfolding builder_part
  part_panics s a del f = go (has_builder_payload d.hashes d.ids id s.payload_trace_context) a.0
    where
      go :
          (b : Bool)
          → b ≡ true
          → (if b
              then (builder_get_payload d env id v >>= received_from_builder d env id v) s
              else (done failed_result, s)).0
            ≡ panicked
      go true e =
          received_panics (env.builder_get_payload s.calls id v)
            (awaited d env (Call.get_payload builder id v) s) (del s.calls) a.1 f
      go false e = absurd cc

  both_panic :
      (s : RollupBoostServer d)
      → Awaits s
      → Delivers
      → IsForgotten s
      → (get_payload_both d env id v s).0 ≡ panicked
  unfolding get_payload_both
  both_panic s a del f = and_then-panicked _ _ (go (env.l2_first s.calls))
    where
      go :
          (first : Bool)
          → (if first
              then (l2_get_payload d env id v >>= λ x.
                    attempt (builder_part d env id v) >>= λ y. paired x y)
                  s
              else (attempt (builder_part d env id v) >>= λ y.
                    l2_get_payload d env id v >>= λ x. paired x y)
                  s).0
            ≡ panicked
      go true =
          and_then-panicked _ _
            (caught-panicked _ (part_panics (awaited d env (Call.get_payload l2 id v) s) a del f))
      go false = and_then-panicked _ _ (caught-panicked _ (part_panics s a del f))

  -- With `external_state_root` on and the mode not `Disabled`, a request for a payload that the
  -- builder has and hands out panics if no forkchoice update's request is kept for its id.
  pub get_payload_panics :
      (s : RollupBoostServer d)
      → is_disabled s.execution_mode ≡ false
      → Awaits s
      → Delivers
      → IsForgotten s
      → (get_payload d env id v s).0 ≡ panicked
  unfolding get_payload
  get_payload_panics s m a del f = go (is_disabled s.execution_mode) m
    where
      go :
          (b : Bool)
          → b ≡ false
          → (if b then get_payload_l2_only d env id v s else get_payload_both d env id v s).0
            ≡ panicked
      go false e = both_panic s a del f
      go true e = absurd cc
