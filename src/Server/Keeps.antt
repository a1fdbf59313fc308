-- ===== src/Server/Keeps.antt =====
-- What a request for a payload leaves alone while it runs
-- (crates/rollup-boost/src/server.rs).
use rollup_boost.Prelude.{
  Bool, true, false, List, ◌∷◌, Option, none, some, ◌≡◌, refl, if◌then◌else◌, Result, ok, err, ap,
  ◌∙◌, nat_eq,
}
use rollup_boost.Engine.{PayloadId, ForkchoiceState, OpPayloadAttributes}
use rollup_boost.Payload.{
  PayloadVersion, OpExecutionPayloadEnvelope, NewPayload, l2, builder, to_new_payload,
}
use rollup_boost.Payload.Trace.{has_builder_payload, Context}
use rollup_boost.Rpc.{RpcClientError}
use rollup_boost.Server.{
  ExecutionMode, Deps, FcuRequest, Call, fork_choice_updated, Env, RollupBoostServer, Outcome, done,
  failed, panicked, awaited, and_then, caught, attempt, join, M, ◌>>=◌, return, paired, or_fail,
}
use rollup_boost.Server.Handlers.{builder_get_payload, l2_fcu, l2_new_payload, l2_get_payload}
use rollup_boost.Server.GetPayload.{
  builder_part, check_builder_payload, calculate_external_state_root, validate_with_l2,
  rebuilt_payload, take_request, taken_request, received_from_builder, result_of, failed_result,
  to_option, rebuild_attributes,
}

module _ (d : Deps) (env : Env) where
  -- What no task changes while a request for a payload runs.
  abbrev pub fixed : RollupBoostServer d → ExecutionMode × Bool × Context d.hashes d.ids
  fixed s = (s.execution_mode, s.external_state_root, s.payload_trace_context)

  -- Nothing sets the mode while calls are waited for.
  abbrev pub IsStable : Type 0
  IsStable = (calls : List Call) (m : ExecutionMode) → env.mode calls m ≡ m

  pub record Keeps {A : Type 0} (m : M d A) : Type 0 where
    pub at : (s : RollupBoostServer d) → fixed (m s).1 ≡ fixed s

  pub Keeps-bind :
      {A B : Type 0} (m : M d A) (f : A → M d B)
      → Keeps m
      → ((a : A) → Keeps (f a))
      → Keeps (m >>= f)
  Keeps-bind {A} {B} m f h k = record { at = λ s. go (m s) ∙ h.at s }
    where
      go : (x : Outcome A × RollupBoostServer d) → fixed (and_then x f).1 ≡ fixed x.1
      go (done a, t) = (k a).at t
      go (failed e, t) = refl
      go (panicked, t) = refl

  pub Keeps-or_fail : {A : Type 0} (r : Result RpcClientError A) → Keeps (or_fail r)
  Keeps-or_fail (ok a) = record { at = λ s. refl }
  Keeps-or_fail (err e) = record { at = λ s. refl }

  pub Keeps-return : {A : Type 0} (a : A) → Keeps (return {S = RollupBoostServer d} a)
  Keeps-return a = record { at = λ s. refl }

  pub Keeps-attempt : {A : Type 0} (m : M d A) → Keeps m → Keeps (attempt m)
  Keeps-attempt {A} m h = record { at = λ s. go (m s) ∙ h.at s }
    where
      go : (x : Outcome A × RollupBoostServer d) → fixed (caught x).1 ≡ fixed x.1
      go (done a, t) = refl
      go (failed e, t) = refl
      go (panicked, t) = refl

  module _ (stable : IsStable) where
    pub fixed-awaited : (c : Call) (s : RollupBoostServer d) → fixed (awaited d env c s) ≡ fixed s
    fixed-awaited c s =
        ap (λ m. (m, s.external_state_root, s.payload_trace_context))
          (stable (c ∷ s.calls) s.execution_mode)

    pub Keeps-l2_get_payload :
        (id : PayloadId) (v : PayloadVersion) → Keeps (l2_get_payload d env id v)
    Keeps-l2_get_payload id v = record { at = λ s. fixed-awaited (Call.get_payload l2 id v) s }

    pub Keeps-builder_get_payload :
        (id : PayloadId) (v : PayloadVersion) → Keeps (builder_get_payload d env id v)
    Keeps-builder_get_payload id v = record {
      at = λ s. fixed-awaited (Call.get_payload builder id v) s;
    }

    pub Keeps-l2_new_payload : (p : NewPayload) → Keeps (l2_new_payload d env p)
    Keeps-l2_new_payload p = record { at = λ s. fixed-awaited (Call.new_payload l2 p) s }

    pub Keeps-l2_fcu :
        (f : ForkchoiceState) (attrs : Option OpPayloadAttributes) → Keeps (l2_fcu d env f attrs)
    Keeps-l2_fcu f attrs = record { at = λ s. fixed-awaited (fork_choice_updated l2 f attrs) s }

    pub Keeps-take_request : (id : PayloadId) → Keeps (take_request d env id)
    Keeps-take_request id = record { at = λ s. go s (d.requests.get id s.payload_to_fcu_request) }
      where
        go :
            (s : RollupBoostServer d) (o : Option FcuRequest)
            → fixed (taken_request d env id o s).1 ≡ fixed s
        go s none = refl
        go s (some r) = refl

    pub Keeps-rebuilt :
        (v : PayloadVersion) (o : Option PayloadId) → Keeps (rebuilt_payload d env v o)
    unfolding rebuilt_payload
    Keeps-rebuilt v none = Keeps-return none
    Keeps-rebuilt v (some id) =
        Keeps-bind (l2_get_payload d env id v) _ (Keeps-l2_get_payload id v)
          (λ r. Keeps-return (to_option r))

    pub Keeps-external :
        (p : OpExecutionPayloadEnvelope) (id : PayloadId) (v : PayloadVersion)
        → Keeps (calculate_external_state_root d env p id v)
    unfolding calculate_external_state_root
    Keeps-external p id v = Keeps-bind _ _ (Keeps-take_request id) (λ i.
        Keeps-bind (l2_fcu d env i.0 (some (rebuild_attributes i.1 p))) _
          (Keeps-l2_fcu i.0 (some (rebuild_attributes i.1 p)))
          (λ r. Keeps-bind (or_fail r) _ (Keeps-or_fail r) (λ a. Keeps-rebuilt v a.payload_id)))

    pub Keeps-validate : (p : OpExecutionPayloadEnvelope) → Keeps (validate_with_l2 d env p)
    unfolding validate_with_l2
    Keeps-validate p =
        Keeps-bind (l2_new_payload d env (to_new_payload p)) _
          (Keeps-l2_new_payload (to_new_payload p))
          (λ r. Keeps-bind (or_fail r) _ (Keeps-or_fail r) (λ a. Keeps-return (result_of (some p))))

    pub Keeps-check :
        (id : PayloadId) (v : PayloadVersion) (p : OpExecutionPayloadEnvelope)
        → Keeps (check_builder_payload d env id v p)
    unfolding check_builder_payload
    Keeps-check id v p = record { at = λ s. go s s.external_state_root }
      where
        go :
            (s : RollupBoostServer d) (b : Bool)
            → fixed
                (if b
                  then (calculate_external_state_root d env p id v >>= λ x. return (result_of x)) s
                  else validate_with_l2 d env p s).1
              ≡ fixed s
        go s true = (Keeps-bind _ _ (Keeps-external p id v) (λ x. Keeps-return (result_of x))).at s
        go s false = (Keeps-validate p).at s

    pub Keeps-received :
        (id : PayloadId) (v : PayloadVersion) (r : Result RpcClientError OpExecutionPayloadEnvelope)
        → Keeps (received_from_builder d env id v r)
    Keeps-received id v (ok p) = Keeps-check id v p
    Keeps-received id v (err e) = Keeps-return failed_result

    pub Keeps-builder_part : (id : PayloadId) (v : PayloadVersion) → Keeps (builder_part d env id v)
    unfolding builder_part
    Keeps-builder_part id v = record {
      at = λ s. go s (has_builder_payload d.hashes d.ids id s.payload_trace_context);
    }
      where
        go :
            (s : RollupBoostServer d) (b : Bool)
            → fixed
                (if b
                  then (builder_get_payload d env id v >>= received_from_builder d env id v) s
                  else (done failed_result, s)).1
              ≡ fixed s
        go s true =
            (Keeps-bind (builder_get_payload d env id v) _ (Keeps-builder_get_payload id v)
                (Keeps-received id v)).at
              s
        go s false = refl

    pub Keeps-join :
        {A B : Type 0} (a : M d A) (b : M d B) → Keeps a → Keeps b → Keeps (join d env a b)
    Keeps-join a b h k = record { at = λ s. go s (env.l2_first s.calls) }
      where
        go :
            (s : RollupBoostServer d) (first : Bool)
            → fixed
                (if first
                  then (a >>= λ x. b >>= λ y. paired x y) s
                  else (b >>= λ y. a >>= λ x. paired x y) s).1
              ≡ fixed s
        go s true = (Keeps-bind _ _ h (λ x. Keeps-bind _ _ k (λ y. record { at = λ t. refl }))).at s
        go s false =
            (Keeps-bind _ _ k (λ y. Keeps-bind _ _ h (λ x. record { at = λ t. refl }))).at s
