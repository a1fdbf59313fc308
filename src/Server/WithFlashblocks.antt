-- ===== src/Server/WithFlashblocks.antt =====
-- The server of crates/rollup-boost/src/server.rs with FlashblocksService of
-- crates/rollup-boost/src/flashblocks/service.rs as its builder, as in flashblocks mode.
use rollup_boost.Prelude.{
  ℕ, Bool, true, false, if◌then◌else◌, List, [], ◌∷◌, Option, none, some, ◌≡◌, refl, ◌⊎◌, inl, inr,
  Bool-cases, Result, ok, err, arith, nat_eq,
}
use rollup_boost.Engine.{
  B256, PayloadStatus, PayloadId, ForkchoiceState, OpPayloadAttributes, ForkchoiceUpdated,
}
use rollup_boost.Payload.{
  PayloadVersion, OpExecutionPayloadEnvelope, PayloadSource, l2, builder, to_new_payload,
}
use rollup_boost.Rpc.{RpcClientError}
use rollup_boost.Rpc
use rollup_boost.Flashblocks.{FlashblocksError}
use rollup_boost.Flashblocks.Service.{is_current, take_best_payload}
use rollup_boost.Flashblocks.Service.Locks.{
  Section, id_written, builder_reset, payload_checked, payload_taken, Shared, fresh, section,
  sections, Gaps, set_current_payload_id, announce, adopt, or_client,
}
use rollup_boost.Flashblocks.Service.Locks
use rollup_boost.Flashblocks.Service.Provenance.{HasBlock, Among, taken-HasBlock, current_is}
use rollup_boost.Flashblocks.Service.Traced.{
  IsTraced, fresh-IsTraced, section-IsTraced, sections-IsTraced,
}
use rollup_boost.Server.{
  Deps, Call, Env, RollupBoostServer, done, fork_choice_updated, get_payload, new_payload,
  get_block,
}
use rollup_boost.Server.GetPayload
use rollup_boost.Server.Approval.{l2_payload}
use rollup_boost.Server.Provenance.{get_payload_origin}

-- What the service meets: the builder's answers to its RPC client, and what is done under its locks
-- by the tasks that run beside the server's calls, between two of them and in the gaps of each.
pub record Builder : Type 0 where
  pub payload_id_optimism : B256 → OpPayloadAttributes → ℕ → PayloadId
  pub fork_choice_updated_answer :
      List Call
      → ForkchoiceState
      → Option OpPayloadAttributes
      → Result RpcClientError ForkchoiceUpdated
  pub get_payload_answer :
      List Call → PayloadId → PayloadVersion → Result RpcClientError OpExecutionPayloadEnvelope
  pub between : List Call → List Section
  pub gaps : List Call → Gaps

module _ (b : Builder) where
  -- The service after a call of the server that reaches it, made after the calls `cs`.
  abbrev pub after_call : Call → List Call → Shared → Shared
  after_call (fork_choice_updated builder f attrs) cs w =
      (Locks.fork_choice_updated_v3 b.payload_id_optimism (b.gaps cs) f attrs
        (b.fork_choice_updated_answer cs f attrs) w).1
  after_call (get_payload builder id v) cs w =
      (Locks.get_payload (b.gaps cs) id v (b.get_payload_answer cs id v) w).1
  after_call (fork_choice_updated l2 f attrs) cs w = w
  after_call (get_payload l2 id v) cs w = w
  after_call (new_payload source p) cs w = w
  after_call (get_block source n full) cs w = w

  unfoldable pub service_after : List Call → Shared
  unfolding sections
  service_after [] = sections (b.between []) fresh
  service_after (c ∷ cs) = sections (b.between (c ∷ cs)) (after_call c cs (service_after cs))

  -- The server's environment with the service as its builder client.
  abbrev pub with_service : Env → Env
  with_service env = record env {
    builder_fork_choice_updated = λ cs f attrs.
        (Locks.fork_choice_updated_v3 b.payload_id_optimism (b.gaps cs) f attrs
          (b.fork_choice_updated_answer cs f attrs) (service_after cs)).0;
    builder_get_payload = λ cs id v.
        (Locks.get_payload (b.gaps cs) id v (b.get_payload_answer cs id v) (service_after cs)).0;
  }

  set-IsTraced :
      (xs : List Section) (id : PayloadId) (w : Shared)
      → IsTraced w
      → IsTraced (set_current_payload_id xs id w)
  unfolding set_current_payload_id
  set-IsTraced xs id w t =
      section-IsTraced builder_reset _
        (sections-IsTraced xs _ (section-IsTraced (id_written id) w t))

  announce-IsTraced :
      (g : Gaps) (f : ForkchoiceState) (attrs : Option OpPayloadAttributes) (w : Shared)
      → IsTraced w
      → IsTraced (announce b.payload_id_optimism g f attrs w)
  announce-IsTraced g f none w t = t
  announce-IsTraced g f (some a) w t =
      set-IsTraced (g 0) (b.payload_id_optimism f.head_block_hash a 3) w t

  adopt-IsTraced :
      (g : Gaps) (o : Option PayloadId) (w : Shared) → IsTraced w → IsTraced (adopt g o w)
  adopt-IsTraced g none w t = t
  adopt-IsTraced g (some id) w t = elim (Bool-cases (is_current id w.service.current_payload_id)) [
    | inl e ↦ rw (e) t
    | inr e ↦ rw (e) (set-IsTraced (g 3) id (sections (g 2) w) (sections-IsTraced (g 2) w t))
  ]

  update-IsTraced :
      (g : Gaps) (f : ForkchoiceState) (attrs : Option OpPayloadAttributes)
      (r : Result RpcClientError ForkchoiceUpdated) (w : Shared)
      → IsTraced w
      → IsTraced (Locks.fork_choice_updated_v3 b.payload_id_optimism g f attrs r w).1
  unfolding Locks.fork_choice_updated_v3
  update-IsTraced g f attrs (err e) w t =
      sections-IsTraced (g 1) _ (announce-IsTraced g f attrs w t)
  update-IsTraced g f attrs (ok u) w t =
      adopt-IsTraced g u.payload_id _ (sections-IsTraced (g 1) _ (announce-IsTraced g f attrs w t))

  either-IsTraced :
      (c : Bool) (x y : Result RpcClientError OpExecutionPayloadEnvelope × Shared)
      → IsTraced x.1
      → IsTraced y.1
      → IsTraced (if c then x else y).1
  either-IsTraced true x y s t = s
  either-IsTraced false x y s t = t

  request-IsTraced :
      (g : Gaps) (id : PayloadId) (v : PayloadVersion)
      (r : Result RpcClientError OpExecutionPayloadEnvelope) (w : Shared)
      → IsTraced w
      → IsTraced (Locks.get_payload g id v r w).1
  unfolding Locks.get_payload
  request-IsTraced g id v r w t =
      either-IsTraced (is_current id w.service.current_payload_id) _ _
        (section-IsTraced (payload_taken v) _
          (sections-IsTraced (g 0) _ (section-IsTraced (payload_checked id) w t)))
        t

  call-IsTraced :
      (c : Call) (cs : List Call) (w : Shared) → IsTraced w → IsTraced (after_call c cs w)
  call-IsTraced (fork_choice_updated builder f attrs) cs w t =
      update-IsTraced (b.gaps cs) f attrs (b.fork_choice_updated_answer cs f attrs) w t
  call-IsTraced (get_payload builder id v) cs w t =
      request-IsTraced (b.gaps cs) id v (b.get_payload_answer cs id v) w t
  call-IsTraced (fork_choice_updated l2 f attrs) cs w t = t
  call-IsTraced (get_payload l2 id v) cs w t = t
  call-IsTraced (new_payload source p) cs w t = t
  call-IsTraced (get_block source n full) cs w t = t

  after-IsTraced : (cs : List Call) → IsTraced (service_after cs)
  unfolding service_after
  after-IsTraced [] = sections-IsTraced (b.between []) fresh fresh-IsTraced
  after-IsTraced (c ∷ cs) =
      sections-IsTraced (b.between (c ∷ cs)) _
        (call-IsTraced c cs (service_after cs) (after-IsTraced cs))

  from_either :
      (r : Result RpcClientError OpExecutionPayloadEnvelope)
      (x : Result FlashblocksError OpExecutionPayloadEnvelope) (p : OpExecutionPayloadEnvelope)
      → or_client r x ≡ ok p
      → (x ≡ ok p) ⊎ (r ≡ ok p)
  from_either r (ok q) p h = inl (ground arith)
  from_either r (err e) p h = inr h

  -- The service when it takes the payload for a request that it gets after the calls `cs`.
  abbrev pub taking : List Call → PayloadId → Shared
  taking cs id = sections (b.gaps cs 0) (section (payload_checked id) (service_after cs))

  -- A payload is the builder's own answer for the id; or the id was the current one when the request
  -- came, and the payload is a block of flashblocks for ids that were written before it was taken.
  abbrev pub IsFromBuilder : PayloadId → PayloadVersion → OpExecutionPayloadEnvelope → Type 0
  IsFromBuilder id v p =
      (cs : List Call) × (((service_after cs).service.current_payload_id ≡ some id)
          × HasBlock (Among (taking cs id).written) v p
        ⊎ (b.get_payload_answer cs id v ≡ ok p))

  taking-IsTraced : (cs : List Call) (id : PayloadId) → IsTraced (taking cs id)
  taking-IsTraced cs id =
      sections-IsTraced (b.gaps cs 0) _
        (section-IsTraced (payload_checked id) (service_after cs) (after-IsTraced cs))

  either_ok :
      (c : Bool) (x y : Result RpcClientError OpExecutionPayloadEnvelope × Shared)
      (p : OpExecutionPayloadEnvelope)
      → (if c then x else y).0 ≡ ok p
      → ((c ≡ true) × (x.0 ≡ ok p)) ⊎ (y.0 ≡ ok p)
  either_ok true x y p h = inl (refl, h)
  either_ok false x y p h = inr h

  taken-IsFromBuilder :
      (cs : List Call) (id : PayloadId) (v : PayloadVersion) (p : OpExecutionPayloadEnvelope)
      → is_current id (service_after cs).service.current_payload_id ≡ true
      → or_client (b.get_payload_answer cs id v) (take_best_payload v (taking cs id).service).0
        ≡ ok p
      → IsFromBuilder id v p
  taken-IsFromBuilder cs id v p e h =
      elim (from_either (b.get_payload_answer cs id v)
        (take_best_payload v (taking cs id).service).0 p h) [
          | inl k ↦ (
            cs,
            inl (
              current_is id (service_after cs).service.current_payload_id e,
              taken-HasBlock (Among (taking cs id).written) v p (taking cs id).service
                  (taking-IsTraced cs id).builder k,
            ),
          )
          | inr k ↦ (cs, inr k)
        ]

  served-IsFromBuilder :
      (cs : List Call) (id : PayloadId) (v : PayloadVersion) (p : OpExecutionPayloadEnvelope)
      → (Locks.get_payload (b.gaps cs) id v (b.get_payload_answer cs id v) (service_after cs)).0
        ≡ ok p
      → IsFromBuilder id v p
  unfolding Locks.get_payload
  served-IsFromBuilder cs id v p h =
      elim (either_ok (is_current id (service_after cs).service.current_payload_id) _ _ p h) [
        | inl (e, k) ↦ taken-IsFromBuilder cs id v p e k
        | inr k ↦ (cs, inr k)
      ]

  -- A payload that `get_payload` of such a server returns, which does not have state roots computed
  -- outside, is one of these, whatever calls came before, whatever the clients and the stream
  -- brought, and in whatever order other tasks came between the locks of the service. Either the L2
  -- client answered it for this id. Or it is from the builder, the L2 client was sent it as a new
  -- payload and took it as not invalid, and it is the builder's own answer for this id or the block
  -- of a gapless stream of flashblocks, taken for a request that came when this id was the current
  -- one; each of these flashblocks was for an id that had been written as the current one by then.
  pub get_payload_of_stream :
      (d : Deps) (env : Env) (id : PayloadId) (v : PayloadVersion) (s : RollupBoostServer d)
      (p : OpExecutionPayloadEnvelope) (source : PayloadSource)
      → s.external_state_root ≡ false
      → (GetPayload.get_payload d (with_service env) id v s).0 ≡ done (p, source)
      → ((source ≡ l2) × (calls : List Call) × (l2_payload d env calls id v ≡ ok p))
        ⊎ ((source ≡ builder)
            × IsFromBuilder id v p
            × (told : List Call) × (status : PayloadStatus) × (Rpc.new_payload
                  (env.l2_new_payload told (to_new_payload p))
                ≡ ok status))
  get_payload_of_stream d env id v s p source internal h =
      elim (get_payload_origin d (with_service env) id v s p source h) [
        | inl c ↦ inl c
        | inr (from, inl (_, (asked, told, status, got, valid))) ↦
            inr (from, served-IsFromBuilder asked id v p got, told, status, valid)
        | inr (from, inr (external, _)) ↦ absurd cc
      ]
