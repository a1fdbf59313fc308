-- ===== src/Server.antt =====
-- The state of `RollupBoostServer` (crates/rollup-boost/src/server.rs), and how its handlers run:
-- in sequence over that state, asking the L2 client and the builder as they go. What the two answer
-- and what other tasks do to the execution mode and the health while a handler waits is `Env`,
-- functions of the calls made so far.
pub mod Handlers
pub mod GetPayload
pub mod Fallback
pub mod Forkchoice
pub mod Keeps
pub mod Modes
pub mod Approval
pub mod Provenance
pub mod Records
pub mod Repeat
pub mod Twice
pub mod Debug
pub mod WithFlashblocks
pub mod Launch
use rollup_boost.Prelude.{
  ℕ, Bool, true, false, not, ◌&&◌, List, [], ◌∷◌, Option, none, some, if◌then◌else◌, ◌==◌, nat_eq,
  ◌≡◌, refl, ◌⊎◌, inl, inr, Result, ok, err,
}
use rollup_boost.Engine.{
  B256, PayloadId, ForkchoiceState, OpPayloadAttributes, ForkchoiceUpdated, PayloadStatus,
  OpExecutionPayloadEnvelopeV3, OpExecutionPayloadEnvelopeV4, Block,
}
use rollup_boost.Payload.{PayloadVersion, OpExecutionPayloadEnvelope, NewPayload, PayloadSource}
use rollup_boost.Payload.Trace.{CacheOps, PayloadTrace, Context}
use rollup_boost.Payload.Trace
use rollup_boost.Probe.{Health, healthy}
use rollup_boost.Rpc.{ClientError, RpcClientError, ErrorObject, to_error_object}
use rollup_boost.Selection.{Float, BlockSelectionPolicy}

-- crates/rollup-boost/src/debug_api.rs.
pub data ExecutionMode : Type 0 where
  enabled dry_run disabled : ExecutionMode

abbrev pub is_dry_run : ExecutionMode → Bool
is_dry_run dry_run = true
is_dry_run _ = false

abbrev pub is_disabled : ExecutionMode → Bool
is_disabled disabled = true
is_disabled _ = false

abbrev pub is_enabled : ExecutionMode → Bool
is_enabled enabled = true
is_enabled _ = false

abbrev pub is_healthy : Health → Bool
is_healthy healthy = true
is_healthy _ = false

-- `DashMap`: a hash map.
pub record MapOps (V : Type 0) : Type 1 where
  pub Map : Type 0
  pub empty : Map
  pub get : PayloadId → Map → Option V
  pub insert : PayloadId → V → Map → Map
  pub remove : PayloadId → Map → Map
  pub get-empty : (k : PayloadId) → get k empty ≡ none
  pub get-insert :
      (k j : PayloadId) (v : V) (m : Map)
      → get j (insert k v m) ≡ (if k == j then some v else get j m)
  pub get-remove :
      (k j : PayloadId) (m : Map) → get j (remove k m) ≡ (if k == j then none else get j m)

abbrev pub FcuRequest : Type 0
FcuRequest = ForkchoiceState × Option OpPayloadAttributes

-- The libraries that the server rests on.
pub record Deps : Type 1 where
  pub hashes : CacheOps B256 (List PayloadId)
  pub ids : CacheOps PayloadId PayloadTrace
  pub requests : MapOps FcuRequest
  pub float : Float

-- A call of an execution client; the last three tasks are spawned and not waited for.
pub data Call : Type 0 where
  fork_choice_updated : PayloadSource → ForkchoiceState → Option OpPayloadAttributes → Call
  get_payload : PayloadSource → PayloadId → PayloadVersion → Call
  new_payload : PayloadSource → NewPayload → Call
  get_block : PayloadSource → ℕ → Bool → Call

-- The L2 client's transport, the builder client, the order in which joined futures run, the span's
-- id, and the changes to mode and health during a call. The list is the calls so far, newest first.
pub record Env : Type 0 where
  pub l2_fork_choice_updated :
      List Call
      → ForkchoiceState
      → Option OpPayloadAttributes
      → Result ClientError ForkchoiceUpdated
  pub l2_get_payload_v3 : List Call → PayloadId → Result ClientError OpExecutionPayloadEnvelopeV3
  pub l2_get_payload_v4 : List Call → PayloadId → Result ClientError OpExecutionPayloadEnvelopeV4
  pub l2_new_payload : List Call → NewPayload → Result ClientError PayloadStatus
  pub l2_get_block : List Call → ℕ → Bool → Result ClientError Block
  pub builder_fork_choice_updated :
      List Call
      → ForkchoiceState
      → Option OpPayloadAttributes
      → Result RpcClientError ForkchoiceUpdated
  pub builder_get_payload :
      List Call → PayloadId → PayloadVersion → Result RpcClientError OpExecutionPayloadEnvelope
  pub l2_first : List Call → Bool
  pub span_id : List Call → Option ℕ
  pub mode : List Call → ExecutionMode → ExecutionMode
  pub health : List Call → Health → Health

pub record RollupBoostServer (d : Deps) : Type 0 where
  pub execution_mode : ExecutionMode
  pub block_selection_policy : Option BlockSelectionPolicy
  pub external_state_root : Bool
  pub ignore_unhealthy_builders : Bool
  pub health : Health
  pub payload_trace_context : Context d.hashes d.ids
  pub payload_to_fcu_request : d.requests.Map
  pub calls : List Call

-- A handler returns, fails with an error for its caller, or panics.
pub data Outcome (A : Type 0) : Type 0 where
  done : A → Outcome A
  failed : ErrorObject → Outcome A
  panicked : Outcome A

abbrev pub M : Deps → Type 0 → Type 0
M d A = RollupBoostServer d → Outcome A × RollupBoostServer d

abbrev pub and_then : {S A B : Type 0} → Outcome A × S → (A → S → Outcome B × S) → Outcome B × S
and_then (done a, s) f = f a s
and_then (failed e, s) f = (failed e, s)
and_then (panicked, s) f = (panicked, s)

infixl 5 ◌>>=◌ ◌>>◌
abbrev pub ◌>>=◌ :
    {S A B : Type 0} → (S → Outcome A × S) → (A → S → Outcome B × S) → S → Outcome B × S
◌>>=◌ m f s = and_then (m s) f

abbrev pub ◌>>◌ :
    {S B : Type 0} → (S → Outcome (Unit {0}) × S) → (S → Outcome B × S) → S → Outcome B × S
◌>>◌ m k s = and_then (m s) (λ _. k)

abbrev pub return : {S A : Type 0} → A → S → Outcome A × S
return a s = (done a, s)

abbrev pub paired : {S A B : Type 0} → A → B → S → Outcome (A × B) × S
paired x y s = (done (x, y), s)

-- `?` on a client's result.
abbrev pub or_fail : {S A : Type 0} → Result RpcClientError A → S → Outcome A × S
or_fail (ok a) s = (done a, s)
or_fail (err e) s = (failed (to_error_object e), s)

-- A future whose error is its value.
abbrev pub caught : {S A : Type 0} → Outcome A × S → Outcome (Result ErrorObject A) × S
caught (done a, s) = (done (ok a), s)
caught (failed e, s) = (done (err e), s)
caught (panicked, s) = (panicked, s)

abbrev pub attempt : {S A : Type 0} → (S → Outcome A × S) → S → Outcome (Result ErrorObject A) × S
attempt m s = caught (m s)

-- A sequence that returns has returned from its first part.
pub and_then-done :
    {S A B : Type 0} (m : Outcome A × S) (f : A → S → Outcome B × S) {b : B}
    → (and_then m f).0 ≡ done b
    → (a : A) × (s : S) × (m ≡ (done a, s)) × ((f a s).0 ≡ done b)
and_then-done (done a, s) f h = (a, s, refl, h)
and_then-done (failed e, s) f h = absurd cc
and_then-done (panicked, s) f h = absurd cc

pub and_then-split :
    {S A B C : Type 0} (m : Outcome A × S) (f : A → S → Outcome B × S) (k : B → S → Outcome C × S)
    {c : C}
    → (and_then (and_then m f) k).0 ≡ done c
    → (a : A) × (s : S) × (m ≡ (done a, s)) × ((and_then (f a s) k).0 ≡ done c)
and_then-split (done a, s) f k h = (a, s, refl, h)
and_then-split (failed e, s) f k h = absurd cc
and_then-split (panicked, s) f k h = absurd cc

pub or_fail-done :
    {S A B : Type 0} (r : Result RpcClientError A) (s : S) (f : A → S → Outcome B × S) {b : B}
    → (and_then (or_fail r s) f).0 ≡ done b
    → (a : A) × (r ≡ ok a) × ((f a s).0 ≡ done b)
or_fail-done (ok a) s f h = (a, refl, h)
or_fail-done (err e) s f h = absurd cc

module _ (d : Deps) where
  abbrev pub modify : (RollupBoostServer d → RollupBoostServer d) → M d (Unit {0})
  modify f s = (done tt, f s)

  abbrev pub set_health : Health → M d (Unit {0})
  set_health h s = (done tt, record s { health = h })

  -- A task that is spawned: its call goes out, and nothing waits for it.
  abbrev pub spawn : Call → M d (Unit {0})
  spawn c s = (done tt, record s { calls = c ∷ s.calls })

  -- `should_skip_unhealthy_builder`.
  unfoldable pub should_skip_unhealthy_builder : RollupBoostServer d → Bool
  should_skip_unhealthy_builder s = s.ignore_unhealthy_builders && not (is_healthy s.health)

module _ (d : Deps) (env : Env) where
  -- The server after a call that was waited for.
  abbrev pub awaited : Call → RollupBoostServer d → RollupBoostServer d
  awaited c s = record s {
    execution_mode = env.mode (c ∷ s.calls) s.execution_mode;
    health = env.health (c ∷ s.calls) s.health;
    calls = c ∷ s.calls;
  }

  -- `tokio::join!`: both futures run to their end, one before the other in either order.
  abbrev pub join : {A B : Type 0} → M d A → M d B → M d (A × B)
  join a b s =
      if env.l2_first s.calls
      then (a >>= λ x. b >>= λ y. paired x y) s
      else (b >>= λ y. a >>= λ x. paired x y) s

  -- If what follows a `join!` returns, both futures have, in one of the two orders.
  pub join-done :
      {A B C : Type 0} (a : M d A) (b : M d B) (s : RollupBoostServer d) (k : A × B → M d C) {c : C}
      → (and_then (join a b s) k).0 ≡ done c
      → ((x : A) × (y : B) × (t : RollupBoostServer d) × (u : RollupBoostServer d) × (a s
            ≡ (done x, t))
          × (b t ≡ (done y, u))
          × ((k (x, y) u).0 ≡ done c))
        ⊎ ((x : A) × (y : B) × (t : RollupBoostServer d) × (u : RollupBoostServer d) × (b s
              ≡ (done y, t))
            × (a t ≡ (done x, u))
            × ((k (x, y) u).0 ≡ done c))
  join-done {A} {B} {C} a b s k {c} h = go (env.l2_first s.calls) h
    where
      go :
          (first : Bool)
          → (and_then
              (if first
                then (a >>= λ x. b >>= λ y. paired x y) s
                else (b >>= λ y. a >>= λ x. paired x y) s)
              k).0
            ≡ done c
          → ((x : A) × (y : B) × (t : RollupBoostServer d) × (u : RollupBoostServer d) × (a s
                ≡ (done x, t))
              × (b t ≡ (done y, u))
              × ((k (x, y) u).0 ≡ done c))
            ⊎ ((x : A) × (y : B) × (t : RollupBoostServer d) × (u : RollupBoostServer d) × (b s
                  ≡ (done y, t))
                × (a t ≡ (done x, u))
                × ((k (x, y) u).0 ≡ done c))
      go true h' =
          let (x, t, e, h1) = and_then-split (a s) _ k h' in
          let (y, u, e', h2) = and_then-split (b t) _ k h1 in inl (x, y, t, u, e, e', h2)
      go false h' =
          let (y, t, e, h1) = and_then-split (b s) _ k h' in
          let (x, u, e', h2) = and_then-split (a t) _ k h1 in inr (x, y, t, u, e, e', h2)
