-- ===== src/Server/Fallback.antt =====
-- The health after `get_payload`, and a request that has no answer
-- (crates/rollup-boost/src/server.rs).
use rollup_boost.Prelude.{
  Bool, true, false, Option, none, some, ◌≡◌, ◌≢◌, refl, arith, if◌then◌else◌, Result, ok, err,
  nat_eq,
}
use rollup_boost.Engine.{PayloadId}
use rollup_boost.Payload.{PayloadVersion, OpExecutionPayloadEnvelope, PayloadSource, l2, builder}
use rollup_boost.Probe.{Health, healthy, service_unavailable}
use rollup_boost.Rpc.{RpcClientError, ErrorObject}
use rollup_boost.Server.{
  is_disabled, Deps, Env, RollupBoostServer, Outcome, done, failed, panicked, and_then, caught,
  attempt, join, M, ◌>>=◌, return, paired,
}
use rollup_boost.Server.Handlers.{BuilderPayloadResult, l2_get_payload}
use rollup_boost.Server.GetPayload.{
  builder_part, chosen, select_payload, fall_back, get_payload_l2_only, get_payload_both,
  get_payload, l2_payload_or_unavailable, settle, settle_with,
}

-- What the health says after a request, by its outcome.
abbrev pub Reports : Outcome (OpExecutionPayloadEnvelope × PayloadSource) → Health → Type 0
Reports (done (p, builder)) h = h ≡ healthy
Reports (done (p, l2)) h = h ≢ service_unavailable
Reports (failed e) h = h ≡ service_unavailable
Reports panicked h = Unit {0}

Reports-healthy :
    (x : OpExecutionPayloadEnvelope × PayloadSource) (h : Health) → h ≡ healthy → Reports (done x) h
Reports-healthy (p, builder) h e = e
Reports-healthy (p, l2) h e = λ k. cc

module _ (d : Deps) (env : Env) where
  select_Reports :
      (b l : OpExecutionPayloadEnvelope) (s : RollupBoostServer d)
      → s.health ≡ healthy
      → let (o, t) = select_payload d env b l s in Reports o t.health
  unfolding select_payload
  select_Reports b l s h = Reports-healthy (chosen d env b l s) s.health h

  fall_back-Reports :
      (l : OpExecutionPayloadEnvelope) (api_failed : Bool) (s : RollupBoostServer d)
      → s.health ≡ healthy
      → let (o, t) = fall_back d env l api_failed s in Reports o t.health
  unfolding fall_back
  fall_back-Reports l api_failed s h = λ k. ground arith

  settle_with-Reports :
      (o : Option OpExecutionPayloadEnvelope) (api_failed : Bool) (l : OpExecutionPayloadEnvelope)
      (s : RollupBoostServer d)
      → s.health ≡ healthy
      → let (r, t) = settle_with d env o api_failed l s in Reports r t.health
  settle_with-Reports none api_failed l s h = fall_back-Reports l api_failed s h
  settle_with-Reports (some b) api_failed l s h = select_Reports b l s h

  settle-Reports :
      (l : OpExecutionPayloadEnvelope) (b : Result ErrorObject BuilderPayloadResult)
      (s : RollupBoostServer d)
      → s.health ≡ healthy
      → let (r, t) = settle d env l b s in Reports r t.health
  settle-Reports l (err e) s h = settle_with-Reports none true l s h
  settle-Reports l (ok r) s h = settle_with-Reports r.payload r.builder_api_failed l s h

  decided_Reports :
      (r : Result RpcClientError OpExecutionPayloadEnvelope)
      (f : OpExecutionPayloadEnvelope
        → RollupBoostServer d
        → Outcome (OpExecutionPayloadEnvelope × PayloadSource) × RollupBoostServer d)
      (s : RollupBoostServer d)
      → ((l : OpExecutionPayloadEnvelope) (t : RollupBoostServer d)
          → t.health ≡ healthy
          → Reports (f l t).0 (f l t).1.health)
      → let (o, t) = and_then (l2_payload_or_unavailable d env r s) f in Reports o t.health
  unfolding l2_payload_or_unavailable
  decided_Reports (err e) f s h = refl
  decided_Reports (ok l) f s h = h l (record s { health = healthy }) refl

  -- What follows two joined futures of which neither fails.
  joined_Reports :
      (x : Outcome (
          Result RpcClientError OpExecutionPayloadEnvelope
          × Result ErrorObject BuilderPayloadResult)
        × RollupBoostServer d)
      → ((e : ErrorObject) → x.0 ≢ failed e)
      → let (o, t) =
          and_then x
            (λ (lb : Result RpcClientError OpExecutionPayloadEnvelope
                × Result ErrorObject BuilderPayloadResult).
              λ (u : RollupBoostServer d).
                and_then (l2_payload_or_unavailable d env lb.0 u) (λ l. settle d env l lb.1)) in
        Reports o t.health
  joined_Reports (done lb, u) n =
      decided_Reports lb.0 (λ l. settle d env l lb.1) u (λ l t. settle-Reports l lb.1 t)
  joined_Reports (failed e, u) n = absurd (n e refl)
  joined_Reports (panicked, u) n = tt

  caught-ne-failed :
      {A B : Type 0} (x : Outcome A × RollupBoostServer d)
      (f : Result ErrorObject A → RollupBoostServer d → Outcome B × RollupBoostServer d)
      (e : ErrorObject)
      → ((y : Result ErrorObject A) (u : RollupBoostServer d) → (f y u).0 ≢ failed e)
      → (and_then (caught x) f).0 ≢ failed e
  caught-ne-failed (done a, u) f e n = n (ok a) u
  caught-ne-failed (failed x, u) f e n = n (err x) u
  caught-ne-failed (panicked, u) f e n = λ h. cc

  both_Reports :
      (id : PayloadId) (v : PayloadVersion) (s : RollupBoostServer d)
      → let (o, t) = get_payload_both d env id v s in Reports o t.health
  unfolding get_payload_both
  both_Reports id v s =
      joined_Reports (join d env asked (attempt (builder_part d env id v)) s)
        (go (env.l2_first s.calls))
    where
      asked : M d (Result RpcClientError OpExecutionPayloadEnvelope)
      asked = l2_get_payload d env id v

      go :
          (first : Bool) (e : ErrorObject)
          → (if first
              then (asked >>= λ x. attempt (builder_part d env id v) >>= λ y. paired x y) s
              else (attempt (builder_part d env id v) >>= λ y. asked >>= λ x. paired x y) s).0
            ≢ failed e
      go true e = caught-ne-failed (builder_part d env id v _) _ e (λ y u h. cc)
      go false e = caught-ne-failed (builder_part d env id v s) _ e (λ y u h. cc)

  l2_only_Reports :
      (id : PayloadId) (v : PayloadVersion) (s : RollupBoostServer d)
      → let (o, t) = get_payload_l2_only d env id v s in Reports o t.health
  unfolding get_payload_l2_only
  l2_only_Reports id v s = decided_Reports _ (λ p. return (p, l2)) _ (λ l t h. λ k. cc)

  -- After every request for a payload the health tells its outcome: an error is reported as service
  -- unavailable, a payload of the builder as healthy, and after a payload of the L2 client the
  -- service is not unavailable. A handler that panicked says nothing.
  pub get_payload-Reports :
      (id : PayloadId) (v : PayloadVersion) (s : RollupBoostServer d)
      → let (o, t) = get_payload d env id v s in Reports o t.health
  unfolding get_payload
  get_payload-Reports id v s = go (is_disabled s.execution_mode)
    where
      go :
          (b : Bool)
          → let (o, t) =
              (if b then get_payload_l2_only d env id v s else get_payload_both d env id v s) in
            Reports o t.health
      go true = l2_only_Reports id v s
      go false = both_Reports id v s
