-- ===== src/Flashblocks/Service/Provenance.antt =====
-- Where the payloads that the service returns come from, whatever comes between its locks
-- (crates/rollup-boost/src/flashblocks/service.rs).
use rollup_boost.Prelude.{
  true, List, [], ◌∷◌, ◌++◌, Option, none, some, ◌≡◌, refl, inl, inr, nat_eq, Result-cases, ok,
  arith, All, All-append, All-map, Any, snoc_of_cons, subst,
}
use rollup_boost.Engine.{PayloadId}
use rollup_boost.Payload.{PayloadVersion, OpExecutionPayloadEnvelope}
use rollup_boost.Flashblocks.{
  ExecutionPayloadBaseV1, FlashblocksPayloadV1, FlashblockBuilder, extend, build_envelope,
  into_envelope,
}
use rollup_boost.Flashblocks
use rollup_boost.Flashblocks.Assembly.{
  IsStream, extend_all, extend_all_only, extend_all_snoc, diffs,
}
use rollup_boost.Flashblocks.Envelope.{Describes, build_envelope_of_stream}
use rollup_boost.Flashblocks.Service.{
  FlashblocksService, take_best_payload, reset_builder, accepts_event, apply_event, is_current,
}

-- The builder has accepted some flashblocks from the first on, all of them with ids of a kind.
abbrev pub IsBuiltFor : (PayloadId → Type 0) → FlashblockBuilder → Type 0
IsBuiltFor P b =
    (ps : List FlashblocksPayloadV1) × (extend_all ps Flashblocks.new ≡ ok b)
    × All (λ p. P p.payload_id) ps

-- The flashblocks `ps` and then `p` make up one block, all with ids of a kind, and the envelope is
-- what they describe.
pub record IsBlockFor (P : PayloadId → Type 0) (v : PayloadVersion) (e : OpExecutionPayloadEnvelope)
    (x : ExecutionPayloadBaseV1) (ps : List FlashblocksPayloadV1) (p : FlashblocksPayloadV1)
    : Type 0 where
  pub stream : IsStream x (ps ++ (p ∷ []))
  pub for_ids : All (λ q. P q.payload_id) (ps ++ (p ∷ []))
  pub described : Describes x p.diff (diffs (ps ++ (p ∷ []))) v e

-- There is such a block.
abbrev pub HasBlock : (PayloadId → Type 0) → PayloadVersion → OpExecutionPayloadEnvelope → Type 0
HasBlock P v e =
    (x : ExecutionPayloadBaseV1) × (ps : List FlashblocksPayloadV1) × (p : FlashblocksPayloadV1)
    × IsBlockFor P v e x ps p

module _ (P : PayloadId → Type 0) where
  pub reset-IsBuiltFor : (s : FlashblocksService) → IsBuiltFor P (reset_builder s).best_payload
  unfolding reset_builder extend_all
  reset-IsBuiltFor s = ([], refl, tt)

  pub taken-IsBuiltFor :
      (v : PayloadVersion) (s : FlashblocksService)
      → IsBuiltFor P (take_best_payload v s).1.best_payload
  unfolding take_best_payload extend_all
  taken-IsBuiltFor v s = ([], refl, tt)

  pub applied-IsBuiltFor :
      (p : FlashblocksPayloadV1) (s : FlashblocksService)
      → P p.payload_id
      → IsBuiltFor P s.best_payload
      → IsBuiltFor P (apply_event p s).best_payload
  unfolding apply_event
  applied-IsBuiltFor p s c (ps, built, a) = elim (Result-cases (extend p s.best_payload)) [
    | inl (b, e) ↦
        rw (e, apply_event)
          (
            ps ++ (p ∷ []),
            extend_all_snoc ps p Flashblocks.new s.best_payload b built e,
            All-append (λ q. P q.payload_id) ps (p ∷ []) a (c, tt),
          )
    | inr (x, e) ↦ rw (e, apply_event) (ps, built, a)
  ]

  built_from :
      (v : PayloadVersion) (e : OpExecutionPayloadEnvelope) (qs : List FlashblocksPayloadV1)
      (b : FlashblockBuilder)
      → extend_all qs Flashblocks.new ≡ ok b
      → build_envelope v b ≡ ok e
      → All (λ q. P q.payload_id) qs
      → HasBlock P v e
  built_from v e [] b h k a = absurd (empty h k)
    where
      empty : extend_all [] Flashblocks.new ≡ ok b → build_envelope v b ≡ ok e → ⊥
      empty h k = unfold extend_all build_envelope Flashblocks.new in ground arith
  built_from v e (q ∷ qs) b h k a =
      let (x, s) = extend_all_only q qs b h in
      let (ps, p, c) = snoc_of_cons q qs in
      let s' = subst (IsStream x) c s in
      let (b', built, e', made, described) = build_envelope_of_stream x ps p v s' in
      let same : b ≡ b' = cc in
      let same_envelope : e' ≡ e = cc in
      (
        x,
        ps,
        p,
        record {
          stream = s';
          for_ids = subst (All (λ r. P r.payload_id)) c a;
          described = subst (Describes x p.diff (diffs (ps ++ (p ∷ []))) v) same_envelope described;
        },
      )

  -- The payload that is taken from such a builder is such a block.
  pub taken-HasBlock :
      (v : PayloadVersion) (e : OpExecutionPayloadEnvelope) (s : FlashblocksService)
      → IsBuiltFor P s.best_payload
      → (take_best_payload v s).0 ≡ ok e
      → HasBlock P v e
  unfolding take_best_payload into_envelope
  taken-HasBlock v e s (ps, built, a) h = built_from v e ps s.best_payload built h a

pub more_ids :
    (P Q : PayloadId → Type 0) (b : FlashblockBuilder)
    → ((id : PayloadId) → P id → Q id)
    → IsBuiltFor P b
    → IsBuiltFor Q b
more_ids P Q b f (ps, built, a) =
    (ps, built, All-map (λ p. P p.payload_id) (λ p. Q p.payload_id) (λ p. f p.payload_id) ps a)

-- An option is none, or has an id of a kind.
abbrev pub OptionFor : (PayloadId → Type 0) → Option FlashblocksPayloadV1 → Type 0
OptionFor P none = Unit {0}
OptionFor P (some p) = P p.payload_id

abbrev pub Among : List PayloadId → PayloadId → Type 0
Among ids id = Any (λ j. j ≡ id) ids

pub accepted_current :
    (p : FlashblocksPayloadV1) (s : FlashblocksService)
    → accepts_event p s ≡ true
    → s.current_payload_id ≡ some p.payload_id
unfolding accepts_event
accepted_current p s h = ground arith

pub current_is : (id : PayloadId) (o : Option PayloadId) → is_current id o ≡ true → o ≡ some id
current_is id o h = ground arith
