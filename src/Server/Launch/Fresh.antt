-- ===== src/Server/Launch/Fresh.antt =====
-- The server as it comes up (crates/rollup-boost/src/server.rs and cli.rs).
use rollup_boost.Prelude.{
  Bool, true, false, not, ◌∷◌, ok, if◌then◌else◌, ◌≡◌, refl, arith, sym, ap, ◌∙◌, subst, nat_eq,
}
use rollup_boost.Prelude.Attempt.{done, try_result, >>=-eq-done, try_result-eq-done}
use rollup_boost.Engine.{PayloadId}
use rollup_boost.Payload.{PayloadVersion, PayloadSource, l2, builder}
use rollup_boost.Payload.Trace.{has_builder_payload}
use rollup_boost.Payload.Trace
use rollup_boost.Http.{ClientArgs, get_auth_jwt}
use rollup_boost.Server.{Deps, Env, Call, RollupBoostServer}
use rollup_boost.Server.GetPayload.{
  get_payload, get_payload_l2_only, get_payload_both, builder_part, l2_payload_or_unavailable,
  fall_back,
}
use rollup_boost.Server.Launch.{
  RollupBoostLibArgs, RpcClient, BuilderClient, rpc_client, flashblocks_service, Libraries,
  Launched, ensure, new_rpc_client, new, run_flashblocks, new_from_args_with_flashblocks,
  new_from_args, launch, same,
}

module _ (d : Deps) (env : Env) where
  -- The builder is left out of a request whose payload it was never told of.
  unknown_asks_l2 :
      (id : PayloadId) (v : PayloadVersion) (s : RollupBoostServer d)
      → has_builder_payload d.hashes d.ids id s.payload_trace_context ≡ false
      → (get_payload d env id v s).1.calls ≡ Call.get_payload l2 id v ∷ s.calls
  unfolding get_payload get_payload_l2_only get_payload_both builder_part l2_payload_or_unavailable
      fall_back
  unknown_asks_l2 id v s h = ground arith

module _ (d : Deps) {E : Type 0} (lib : Libraries E) where
  fresh_unknown :
      (id : PayloadId) (args : RollupBoostLibArgs)
      → has_builder_payload d.hashes d.ids id (new d lib args).payload_trace_context ≡ false
  unfolding new has_builder_payload Trace.new
  fresh_unknown id args = rw (d.ids.get-empty id) refl

  -- The client is made from these arguments, with the secret that they lead to.
  pub record IsMadeFrom (args : ClientArgs) (source : PayloadSource) (c : RpcClient) : Type 0 where
    pub own_url : c.url ≡ args.url
    pub own_secret : get_auth_jwt lib.from_file lib.missing_secret args ≡ ok c.secret
    pub own_timeout : c.timeout ≡ args.timeout
    pub own_source : c.source ≡ source

  client-IsMadeFrom :
      (source : PayloadSource) (args : ClientArgs) (c : RpcClient)
      → new_rpc_client d lib source args ≡ done c
      → IsMadeFrom args source c
  unfolding new_rpc_client
  client-IsMadeFrom source args c h =
      let (secret, e, h1) =
        >>=-eq-done (try_result same (get_auth_jwt lib.from_file lib.missing_secret args)) _ h in
      let (_, _, h2) = >>=-eq-done (try_result same (lib.builds _)) _ h1 in
      let made : record { url = args.url; secret = secret; timeout = args.timeout; source = source }
          ≡ c =
        ground arith in
      record {
        own_url = ap (λ x. x.url) (sym made);
        own_secret = try_result-eq-done same _ e ∙ ap (λ x. ok x.secret) made;
        own_timeout = ap (λ x. x.timeout) (sym made);
        own_source = ap (λ x. x.source) (sym made);
      }

  -- The builder is a client of the builder's arguments, with the service before it exactly if
  -- flashblocks are on.
  abbrev pub IsBuilderOf : RollupBoostLibArgs → BuilderClient → Type 0
  IsBuilderOf args (rpc_client c) =
      (args.flashblocks.flashblocks ≡ false) × IsMadeFrom args.builder builder c
  IsBuilderOf args (flashblocks_service c url addr config) =
      (args.flashblocks.flashblocks ≡ true)
      × IsMadeFrom args.builder builder c
      × (url ≡ args.flashblocks.flashblocks_builder_url)
      × (addr.1 ≡ args.flashblocks.flashblocks_port)

  abbrev pub IsWired : RollupBoostLibArgs → Launched d lib → Type 0
  IsWired args x =
      IsMadeFrom args.l2_client l2 x.l2_client
      × IsBuilderOf args x.builder_client
      × (x.server ≡ new d lib args)

  ensured : (b : Bool) (e : E) → ensure d lib b e ≡ done tt → b ≡ true
  ensured true e h = refl
  ensured false e h = absurd cc

  with_flashblocks-IsWired :
      (args : RollupBoostLibArgs) (x : Launched d lib)
      → new_from_args_with_flashblocks d lib args ≡ done x
      → IsWired args x
  unfolding new_from_args_with_flashblocks run_flashblocks
  with_flashblocks-IsWired args x h =
      let (_, on, h1) =
        >>=-eq-done (ensure d lib args.flashblocks.flashblocks lib.flashblocks_off) _ h in
      let (l, a, h2) = >>=-eq-done (new_rpc_client d lib l2 args.l2_client) _ h1 in
      let (b, c, h3) = >>=-eq-done (new_rpc_client d lib builder args.builder) _ h2 in
      let (host, _, h4) =
        >>=-eq-done (try_result same (lib.parse_host args.flashblocks.flashblocks_host)) _ h3 in
      let (service, r, h5) = >>=-eq-done (run_flashblocks d lib b _ (host, _) _) _ h4 in
      let (_, _, h6) =
        >>=-eq-done (try_result same (lib.binds (host, args.flashblocks.flashblocks_port))) _ r in
      let made : flashblocks_service b args.flashblocks.flashblocks_builder_url
            (host, args.flashblocks.flashblocks_port) args.flashblocks.flashblocks_ws_config
          ≡ service =
        ground arith in
      let is_x : record { l2_client = l; builder_client = service; server = new d lib args } ≡ x =
        ground arith in
      subst (IsWired args) is_x (
        client-IsMadeFrom l2 args.l2_client l a,
        subst (IsBuilderOf args) made (
          ensured args.flashblocks.flashblocks lib.flashblocks_off on,
          client-IsMadeFrom builder args.builder b c,
          refl,
          refl,
        ),
        refl,
      )

  plain-IsWired :
      (args : RollupBoostLibArgs) (x : Launched d lib)
      → new_from_args d lib args ≡ done x
      → IsWired args x
  unfolding new_from_args
  plain-IsWired args x h =
      let (_, off, h1) =
        >>=-eq-done (ensure d lib (not args.flashblocks.flashblocks) lib.flashblocks_on) _ h in
      let (l, a, h2) = >>=-eq-done (new_rpc_client d lib l2 args.l2_client) _ h1 in
      let (b, c, h3) = >>=-eq-done (new_rpc_client d lib builder args.builder) _ h2 in
      let is_x : record { l2_client = l; builder_client = rpc_client b; server = new d lib args }
          ≡ x =
        ground arith in
      let is_off = ensured (not args.flashblocks.flashblocks) lib.flashblocks_on off in
      subst (IsWired args) is_x (
        client-IsMadeFrom l2 args.l2_client l a,
        (ground (arith, is_off), client-IsMadeFrom builder args.builder b c),
        refl,
      )

  asks_l2 :
      (args : RollupBoostLibArgs) (env : Env) (id : PayloadId) (v : PayloadVersion)
      (s t : RollupBoostServer d)
      → t ≡ new d lib args
      → (get_payload d env id v
          (record s { payload_trace_context = t.payload_trace_context })).1.calls
        ≡ Call.get_payload l2 id v ∷ s.calls
  asks_l2 args env id v s t h =
      unknown_asks_l2 d env id v (record s { payload_trace_context = t.payload_trace_context })
        (subst (λ z. has_builder_payload d.hashes d.ids id z.payload_trace_context ≡ false) (sym h)
          (fresh_unknown id args))

  -- A server that comes up has an L2 client of the arguments for it and a builder of those for the
  -- builder, with the flashblocks service before it exactly if flashblocks are on, each with the URL,
  -- the timeout and the secret of its own arguments, and the state that the arguments say. As long as
  -- its record of payloads is the one it came up with, such a server asks the L2 client alone for a
  -- payload, whatever its mode and health and whatever calls it has made.
  pub launched_server :
      (args : RollupBoostLibArgs) (x : Launched d lib)
      → launch d lib args ≡ done x
      → IsWired args x
        × ((env : Env) (id : PayloadId) (v : PayloadVersion) (s : RollupBoostServer d)
            → (get_payload d env id v
                (record s { payload_trace_context = x.server.payload_trace_context })).1.calls
              ≡ Call.get_payload l2 id v ∷ s.calls)
  unfolding launch
  launched_server args x h =
      let wired = go args.flashblocks.flashblocks h in
      (wired, λ env id v s. asks_l2 args env id v s x.server wired.2)
    where
      go :
          (b : Bool)
          → (if b then new_from_args_with_flashblocks d lib args else new_from_args d lib args)
            ≡ done x
          → IsWired args x
      go true h' = with_flashblocks-IsWired args x h'
      go false h' = plain-IsWired args x h'
