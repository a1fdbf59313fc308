-- ===== src/Server/Twice.antt =====
-- A payload that is asked for twice while state roots are computed outside: the first request uses
-- up the remembered update (crates/rollup-boost/src/server.rs).
use rollup_boost.Prelude.{
  Bool, true, false, Option, none, some, ◌≡◌, refl, ap, ◌∙◌, sym, subst, arith, nat_eq,
  if◌then◌else◌, Result, ok, err,
}
use rollup_boost.Engine.{PayloadId}
use rollup_boost.Payload.{PayloadVersion, OpExecutionPayloadEnvelope, l2, builder}
use rollup_boost.Payload.Trace.{has_builder_payload}
use rollup_boost.Rpc.{RpcClientError, ErrorObject}
use rollup_boost.Server.{
  is_disabled, Deps, FcuRequest, Call, Env, RollupBoostServer, Outcome, done, failed, panicked,
  awaited, and_then, caught, attempt, M, ◌>>=◌, return, paired, or_fail,
}
use rollup_boost.Server.Handlers.{BuilderPayloadResult, builder_get_payload, l2_get_payload, l2_fcu}
use rollup_boost.Server.GetPayload.{
  builder_part, select_payload, fall_back, get_payload_both, get_payload, l2_payload_or_unavailable,
  settle, check_builder_payload, rebuilt_payload, rebuild_attributes, calculate_external_state_root,
  take_request, taken_request, received_from_builder, failed_result, result_of, validate_with_l2,
}
use rollup_boost.Server.Keeps.{
  IsStable, fixed, Keeps, Keeps-bind, Keeps-join, Keeps-attempt, Keeps-l2_get_payload,
  Keeps-builder_part,
}
use rollup_boost.Server.Repeat.{Awaits, Delivers, IsForgotten, get_payload_panics}

module _ (d : Deps) (env : Env) (id : PayloadId) (v : PayloadVersion) where
  -- What is forgotten stays so.
  record Forgets {A : Type 0} (m : M d A) : Type 0 where
    at : (s : RollupBoostServer d) → IsForgotten d env id v s → IsForgotten d env id v (m s).1

  after :
      {A B : Type 0} (x : Outcome A × RollupBoostServer d) (f : A → M d B)
      → IsForgotten d env id v x.1
      → ((a : A) → Forgets (f a))
      → IsForgotten d env id v (and_then x f).1
  after (done a, s) f h k = (k a).at s h
  after (failed e, s) f h k = h
  after (panicked, s) f h k = h

  after_caught :
      {A : Type 0} (x : Outcome A × RollupBoostServer d)
      → IsForgotten d env id v x.1
      → IsForgotten d env id v (caught x).1
  after_caught (done a, s) h = h
  after_caught (failed e, s) h = h
  after_caught (panicked, s) h = h

  Forgets-bind :
      {A B : Type 0} (m : M d A) (f : A → M d B)
      → Forgets m
      → ((a : A) → Forgets (f a))
      → Forgets (m >>= f)
  Forgets-bind m f h k = record { at = λ s g. after (m s) f (h.at s g) k }

  Forgets-or_fail : {A : Type 0} (r : Result RpcClientError A) → Forgets (or_fail r)
  Forgets-or_fail (ok a) = record { at = λ s h. h }
  Forgets-or_fail (err e) = record { at = λ s h. h }

  Forgets-rebuilt : (o : Option PayloadId) → Forgets (rebuilt_payload d env v o)
  unfolding rebuilt_payload
  Forgets-rebuilt none = record { at = λ s h. h }
  Forgets-rebuilt (some i) = record { at = λ s h. h }

  taken-IsForgotten :
      (o : Option FcuRequest) (s : RollupBoostServer d)
      → d.requests.get id s.payload_to_fcu_request ≡ o
      → IsForgotten d env id v (taken_request d env id o s).1
  taken-IsForgotten none s e = e
  taken-IsForgotten (some r) s e =
      ground (arith, d.requests.get-remove id id s.payload_to_fcu_request)

  external-IsForgotten :
      (p : OpExecutionPayloadEnvelope) (s : RollupBoostServer d)
      → IsForgotten d env id v (calculate_external_state_root d env p id v s).1
  unfolding calculate_external_state_root
  external-IsForgotten p s = after (take_request d env id s) _ (taken-IsForgotten _ s refl) (λ i.
      Forgets-bind (l2_fcu d env i.0 (some (rebuild_attributes i.1 p))) _ (record { at = λ t h. h })
        (λ r. Forgets-bind (or_fail r) _ (Forgets-or_fail r) (λ a. Forgets-rebuilt a.payload_id)))

  check-IsForgotten :
      (p : OpExecutionPayloadEnvelope) (s : RollupBoostServer d)
      → s.external_state_root ≡ true
      → IsForgotten d env id v (check_builder_payload d env id v p s).1
  unfolding check_builder_payload
  check-IsForgotten p s x = go s.external_state_root x
    where
      go :
          (b : Bool)
          → b ≡ true
          → IsForgotten d env id v
              (if b
                then (calculate_external_state_root d env p id v >>= λ a. return (result_of a)) s
                else validate_with_l2 d env p s).1
      go true e = after _ _ (external-IsForgotten p s) (λ a. record { at = λ t h. h })
      go false e = absurd cc

  received-IsForgotten :
      (r : Result RpcClientError OpExecutionPayloadEnvelope) (s : RollupBoostServer d)
      → (b : OpExecutionPayloadEnvelope) × (r ≡ ok b)
      → s.external_state_root ≡ true
      → IsForgotten d env id v (received_from_builder d env id v r s).1
  received-IsForgotten (ok p) s e x = check-IsForgotten p s x
  received-IsForgotten (err e) s (b, h) x = absurd cc

  part-IsForgotten :
      (s : RollupBoostServer d)
      → Awaits d env id v s
      → Delivers d env id v
      → IsForgotten d env id v (builder_part d env id v s).1
  unfolding builder_part
  part-IsForgotten s a del = go (has_builder_payload d.hashes d.ids id s.payload_trace_context) a.0
    where
      go :
          (b : Bool)
          → b ≡ true
          → IsForgotten d env id v
              (if b
                then (builder_get_payload d env id v >>= received_from_builder d env id v) s
                else (done failed_result, s)).1
      go true e =
          received-IsForgotten (env.builder_get_payload s.calls id v)
            (awaited d env (Call.get_payload builder id v) s) (del s.calls) a.1
      go false e = absurd cc

  Forgets-decide :
      (r : Result RpcClientError OpExecutionPayloadEnvelope)
      → Forgets (l2_payload_or_unavailable d env r)
  unfolding l2_payload_or_unavailable
  Forgets-decide (ok p) = record { at = λ s h. h }
  Forgets-decide (err e) = record { at = λ s h. h }

  Keeps-decide :
      (r : Result RpcClientError OpExecutionPayloadEnvelope)
      → Keeps d env (l2_payload_or_unavailable d env r)
  unfolding l2_payload_or_unavailable
  Keeps-decide (ok p) = record { at = λ s. refl }
  Keeps-decide (err e) = record { at = λ s. refl }

  Forgets-settle :
      (l : OpExecutionPayloadEnvelope) (r : Result ErrorObject BuilderPayloadResult)
      → Forgets (settle d env l r)
  unfolding fall_back select_payload
  Forgets-settle l (err e) = record { at = λ s h. ground (arith, h) }
  Forgets-settle l (ok r) = record { at = λ s h. ground (arith, h) }

  Keeps-settle :
      (l : OpExecutionPayloadEnvelope) (r : Result ErrorObject BuilderPayloadResult)
      → Keeps d env (settle d env l r)
  unfolding fall_back select_payload
  Keeps-settle l (err e) = record { at = λ s. ground arith }
  Keeps-settle l (ok r) = record { at = λ s. ground arith }

  both-IsForgotten :
      (s : RollupBoostServer d)
      → Awaits d env id v s
      → Delivers d env id v
      → IsForgotten d env id v (get_payload_both d env id v s).1
  unfolding get_payload_both
  both-IsForgotten s a del =
      after _ _ (go (env.l2_first s.calls))
        (λ (xy : Result RpcClientError OpExecutionPayloadEnvelope
            × Result ErrorObject BuilderPayloadResult).
          Forgets-bind (l2_payload_or_unavailable d env xy.0) _ (Forgets-decide xy.0)
            (λ l. Forgets-settle l xy.1))
    where
      go :
          (first : Bool)
          → IsForgotten d env id v
              (if first
                then (l2_get_payload d env id v >>= λ x.
                      attempt (builder_part d env id v) >>= λ y. paired x y)
                    s
                else (attempt (builder_part d env id v) >>= λ y.
                      l2_get_payload d env id v >>= λ x. paired x y)
                    s).1
      go true =
          after _ _
            (after_caught _ (part-IsForgotten (awaited d env (Call.get_payload l2 id v) s) a del))
            (λ y. record { at = λ t h. h })
      go false =
          after _ _ (after_caught _ (part-IsForgotten s a del)) (λ y. record { at = λ t h. h })

  both-Keeps : IsStable d env → Keeps d env (get_payload_both d env id v)
  unfolding get_payload_both
  both-Keeps stable =
      Keeps-bind d env _ _
        (Keeps-join d env stable _ _ (Keeps-l2_get_payload d env stable id v)
          (Keeps-attempt d env (builder_part d env id v) (Keeps-builder_part d env stable id v)))
        (λ xy.
          Keeps-bind d env (l2_payload_or_unavailable d env xy.0) _ (Keeps-decide xy.0)
            (λ l. Keeps-settle l xy.1))

  asks_both :
      (s : RollupBoostServer d)
      → is_disabled s.execution_mode ≡ false
      → get_payload d env id v s ≡ get_payload_both d env id v s
  unfolding get_payload
  asks_both s m = ground (arith, m)

  -- With state roots computed outside and the mode not `Disabled`, and nobody setting the mode: of
  -- two requests for a payload that the builder has and hands out, one after the other, the second
  -- panics, whatever the first one returned.
  pub second_request_panics :
      (s : RollupBoostServer d)
      → IsStable d env
      → is_disabled s.execution_mode ≡ false
      → Awaits d env id v s
      → Delivers d env id v
      → (get_payload d env id v (get_payload d env id v s).1).0 ≡ panicked
  second_request_panics s stable m a del =
      subst (λ z. (get_payload d env id v z.1).0 ≡ panicked) (sym (asks_both s m))
        (get_payload_panics d env id v later (ap (λ x. is_disabled x.0) kept ∙ m)
          (ap (λ x. has_builder_payload d.hashes d.ids id x.2) kept ∙ a.0, ap (λ x. x.1) kept ∙ a.1)
          del (both-IsForgotten s a del))
    where
      later : RollupBoostServer d
      later = (get_payload_both d env id v s).1

      kept : fixed d env later ≡ fixed d env s
      kept = (both-Keeps stable).at s
