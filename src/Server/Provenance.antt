-- ===== src/Server/Provenance.antt =====
-- Where a payload that `get_payload` returns comes from (crates/rollup-boost/src/server.rs).
use rollup_boost.Prelude.{
  Bool, true, false, List, some, ◌≡◌, refl, ◌⊎◌, inl, inr, arith, nat_eq, if◌then◌else◌,
  Option-cases, Result, ok, err, ap, ◌∙◌, sym, subst,
}
use rollup_boost.Engine.{PayloadId}
use rollup_boost.Payload.{PayloadVersion, OpExecutionPayloadEnvelope, PayloadSource, l2, builder}
use rollup_boost.Rpc.{RpcClientError, ErrorObject}
use rollup_boost.Selection.{select_block}
use rollup_boost.Server.{
  is_disabled, Deps, Call, Env, RollupBoostServer, Outcome, done, failed, panicked, return,
  and_then, caught, attempt, join-done,
}
use rollup_boost.Probe.{healthy}
use rollup_boost.Server.Handlers.{BuilderPayloadResult, l2_get_payload}
use rollup_boost.Server.GetPayload.{
  builder_part, chosen, select_payload, fall_back, get_payload_l2_only, get_payload_both,
  get_payload, l2_payload_or_unavailable, settle, settle_with,
}
use rollup_boost.Server.Approval.{l2_payload, IsApproved, approved}

module _ (d : Deps) (env : Env) where
  selected :
      (b l : OpExecutionPayloadEnvelope) (s : RollupBoostServer d) (p : OpExecutionPayloadEnvelope)
      (source : PayloadSource)
      → (select_payload d env b l s).0 ≡ done (p, source)
      → ((source ≡ l2) × (l ≡ p)) ⊎ ((source ≡ builder) × (b ≡ p))
  unfolding select_payload chosen select_block
  selected b l s p source h = ground arith

  settled_none :
      (l : OpExecutionPayloadEnvelope) (api_failed : Bool) (s : RollupBoostServer d)
      (p : OpExecutionPayloadEnvelope) (source : PayloadSource)
      → (fall_back d env l api_failed s).0 ≡ done (p, source)
      → (source ≡ l2) × (l ≡ p)
  unfolding fall_back
  settled_none l api_failed s p source h = ground arith

  -- Of the two payloads the choice takes one, with its source.
  settled :
      (l : OpExecutionPayloadEnvelope) (b : Result ErrorObject BuilderPayloadResult)
      (s : RollupBoostServer d) (p : OpExecutionPayloadEnvelope) (source : PayloadSource)
      → (settle d env l b s).0 ≡ done (p, source)
      → ((source ≡ l2) × (l ≡ p))
        ⊎ ((r : BuilderPayloadResult) × (source ≡ builder) × (b ≡ ok r) × (r.payload ≡ some p))
  unfolding fall_back
  settled l (err e) s p source h = inl (ground arith)
  settled l (ok r) s p source h = elim (Option-cases r.payload) [
    | inl e ↦ inl (
        settled_none l r.builder_api_failed s p source
          (subst (λ o. (settle_with d env o r.builder_api_failed l s).0 ≡ done (p, source)) e h))
    | inr (x, e) ↦
        elim (selected x l s p source
          (subst (λ o. (settle_with d env o r.builder_api_failed l s).0 ≡ done (p, source)) e h)) [
            | inl c ↦ inl c
            | inr (c, same) ↦ inr (r, c, refl, e ∙ ap some same)
          ]
  ]

  available :
      {B : Type 0} (r : Result RpcClientError OpExecutionPayloadEnvelope) (s : RollupBoostServer d)
      (f : OpExecutionPayloadEnvelope → RollupBoostServer d → Outcome B × RollupBoostServer d)
      {b : B}
      → (and_then (l2_payload_or_unavailable d env r s) f).0 ≡ done b
      → (l : OpExecutionPayloadEnvelope) × (t : RollupBoostServer d) × (r ≡ ok l)
        × ((f l t).0 ≡ done b)
  unfolding l2_payload_or_unavailable
  available (err e) s f h = absurd cc
  available (ok l) s f h = (l, record s { health = healthy }, refl, h)

  delivered :
      (r : Result RpcClientError OpExecutionPayloadEnvelope)
      (b : Result ErrorObject BuilderPayloadResult) (s : RollupBoostServer d)
      (p : OpExecutionPayloadEnvelope) (source : PayloadSource)
      → (and_then (l2_payload_or_unavailable d env r s) (λ l. settle d env l b)).0
        ≡ done (p, source)
      → ((source ≡ l2) × (r ≡ ok p))
        ⊎ ((q : BuilderPayloadResult) × (source ≡ builder) × (b ≡ ok q) × (q.payload ≡ some p))
  delivered r b s p source h =
      let (l, t, e, h') = available r s (λ l. settle d env l b) h in
      elim (settled l b t p source h') [ inl (c, same) ↦ inl (c, e ∙ ap ok same) | inr c ↦ inr c ]

  caught_ok :
      {A : Type 0} (x : Outcome A × RollupBoostServer d) (t : RollupBoostServer d) (a : A)
      → caught x ≡ (done (ok a), t)
      → x.0 ≡ done a
  caught_ok (done a, u) t b h = ground arith
  caught_ok (failed e, u) t b h = ground arith
  caught_ok (panicked, u) t b h = ground arith

  -- Where a returned payload may come from.
  abbrev pub HasOrigin :
      RollupBoostServer d
      → PayloadId
      → PayloadVersion
      → OpExecutionPayloadEnvelope
      → PayloadSource
      → Type 0
  HasOrigin s id v p source =
      ((source ≡ l2) × (calls : List Call) × (l2_payload d env calls id v ≡ ok p))
      ⊎ ((source ≡ builder)
          × IsApproved d env s.external_state_root s.payload_to_fcu_request id v p)

  l2_only_origin :
      (id : PayloadId) (v : PayloadVersion) (s : RollupBoostServer d)
      (p : OpExecutionPayloadEnvelope) (source : PayloadSource)
      → (get_payload_l2_only d env id v s).0 ≡ done (p, source)
      → HasOrigin s id v p source
  unfolding get_payload_l2_only
  l2_only_origin id v s p source h =
      let (l, t, e, h') = available (l2_payload d env s.calls id v) _ (λ q. return (q, l2)) h in
      inl (ground arith, s.calls, e ∙ ground arith)

  both_origin :
      (id : PayloadId) (v : PayloadVersion) (s : RollupBoostServer d)
      (p : OpExecutionPayloadEnvelope) (source : PayloadSource)
      → (get_payload_both d env id v s).0 ≡ done (p, source)
      → HasOrigin s id v p source
  unfolding get_payload_both
  both_origin id v s p source h =
      elim (join-done d env (l2_get_payload d env id v) (attempt (builder_part d env id v)) s _ h) [
        | inl (x, y, t, u, a, b, c) ↦ elim (delivered x y u p source c) [
          | inl (e, got) ↦ inl (e, s.calls, asked_first s x t a ∙ got)
          | inr (q, e, found, has) ↦ inr (
            e,
            subst (λ w. IsApproved d env w.external_state_root w.payload_to_fcu_request id v p)
                (sym (ap (λ o. o.1) a))
                (approved d env id v p q t
                  (caught_ok (builder_part d env id v t) u q (b ∙ ap (λ z. (done z, u)) found))
                  has),
          )
        ]
        | inr (x, y, t, u, b, a, c) ↦ elim (delivered x y u p source c) [
          | inl (e, got) ↦ inl (e, t.calls, asked_first t x u a ∙ got)
          | inr (q, e, found, has) ↦ inr (
            e,
            approved d env id v p q s
                (caught_ok (builder_part d env id v s) t q (b ∙ ap (λ z. (done z, t)) found)) has,
          )
        ]
      ]
    where
      asked_first :
          (w : RollupBoostServer d) (x : Result RpcClientError OpExecutionPayloadEnvelope)
          (t : RollupBoostServer d)
          → l2_get_payload d env id v w ≡ (done x, t)
          → l2_payload d env w.calls id v ≡ x
      asked_first w x t a = ground arith

  -- A payload that `get_payload` returns, whatever the mode and however the clients answer, is one
  -- of these. From the L2 client: its answer for this id. From the builder, where the server does
  -- not have state roots computed outside: the builder's answer for this id, and one which the L2
  -- client was sent as a new payload and took as not invalid. From the builder, where it does: what
  -- the L2 client built, on a remembered update of this id, out of the builder's transactions.
  pub get_payload_origin :
      (id : PayloadId) (v : PayloadVersion) (s : RollupBoostServer d)
      (p : OpExecutionPayloadEnvelope) (source : PayloadSource)
      → (get_payload d env id v s).0 ≡ done (p, source)
      → HasOrigin s id v p source
  unfolding get_payload
  get_payload_origin id v s p source h = go (is_disabled s.execution_mode) h
    where
      go :
          (b : Bool)
          → (if b then get_payload_l2_only d env id v s else get_payload_both d env id v s).0
            ≡ done (p, source)
          → HasOrigin s id v p source
      go true h' = l2_only_origin id v s p source h'
      go false h' = both_origin id v s p source h'
