-- ===== src/Flashblocks/Service/Traced.antt =====
-- What holds of FlashblocksService in whatever order its sections come
-- (crates/rollup-boost/src/flashblocks/service.rs).
use rollup_boost.Prelude.{
  List, [], ◌∷◌, Option, none, some, ◌≡◌, refl, inl, inr, nat_eq, Bool-cases, arith, subst,
}
use rollup_boost.Engine.{PayloadId}
use rollup_boost.Flashblocks.{FlashblocksPayloadV1}
use rollup_boost.Flashblocks.Assembly.{extend_all}
use rollup_boost.Flashblocks.Service.{
  FlashblocksService, new, take_best_payload, write_id, accepts_event, apply_event, is_current,
}
use rollup_boost.Flashblocks.Service
use rollup_boost.Flashblocks.Service.Locks.{
  Section, id_written, builder_reset, event_checked, event_applied, payload_checked, payload_taken,
  Shared, fresh, section, sections, check_next, apply_checked,
}
use rollup_boost.Flashblocks.Service.Provenance.{
  IsBuiltFor, reset-IsBuiltFor, taken-IsBuiltFor, applied-IsBuiltFor, more_ids, OptionFor, Among,
  accepted_current,
}

abbrev pub OptionAmong : List PayloadId → Option PayloadId → Type 0
OptionAmong ids none = Unit {0}
OptionAmong ids (some id) = Among ids id

-- The flashblocks in the builder are for ids that were written, and so are the current id and the
-- flashblock that is checked and not yet applied.
pub record IsTraced (w : Shared) : Type 0 where
  pub builder : IsBuiltFor (Among w.written) w.service.best_payload
  pub waiting : OptionFor (Among w.written) w.checked
  pub current : OptionAmong w.written w.service.current_payload_id

pub fresh-IsTraced : IsTraced fresh
unfolding fresh new extend_all
fresh-IsTraced = record { builder = ([], refl, tt); waiting = tt; current = tt }

more_waiting :
    (id : PayloadId) (ids : List PayloadId) (o : Option FlashblocksPayloadV1)
    → OptionFor (Among ids) o
    → OptionFor (Among (id ∷ ids)) o
more_waiting id ids none h = tt
more_waiting id ids (some p) h = inr h

checked-IsTraced :
    (p : FlashblocksPayloadV1) (o : Option FlashblocksPayloadV1) (w : Shared)
    → IsTraced w
    → IsTraced (check_next p o w)
checked-IsTraced p (some q) w t = t
checked-IsTraced p none w t = elim (Bool-cases (accepts_event p w.service)) [
  | inl e ↦ rw (e) (record {
    builder = t.builder;
    waiting = subst (OptionAmong w.written) (accepted_current p w.service e) t.current;
    current = t.current;
  })
  | inr e ↦ rw (e) t
]

pub applied_current :
    (p : FlashblocksPayloadV1) (s : FlashblocksService)
    → (apply_event p s).current_payload_id ≡ s.current_payload_id
unfolding apply_event
applied_current p s = ground arith

applied-IsTraced :
    (o : Option FlashblocksPayloadV1) (w : Shared)
    → OptionFor (Among w.written) o
    → IsTraced w
    → IsTraced (apply_checked o w)
applied-IsTraced none w c t = t
applied-IsTraced (some p) w c t = record {
  builder = applied-IsBuiltFor (Among w.written) p w.service c t.builder;
  waiting = tt;
  current = rw (applied_current p w.service) t.current;
}

pub section-IsTraced : (x : Section) (w : Shared) → IsTraced w → IsTraced (section x w)
unfolding section take_best_payload
section-IsTraced (id_written id) w t = record {
  builder =
      more_ids (Among w.written) (Among (id ∷ w.written)) w.service.best_payload (λ j h. inr h)
        t.builder;
  waiting = more_waiting id w.written w.checked t.waiting;
  current = inl refl;
}
section-IsTraced builder_reset w t = record {
  builder = reset-IsBuiltFor (Among w.written) w.service;
  waiting = t.waiting;
  current = reset_current w t.current;
}
  where
    reset_current :
        (w : Shared)
        → OptionAmong w.written w.service.current_payload_id
        → OptionAmong w.written (section builder_reset w).service.current_payload_id
    reset_current w h = unfold Service.reset_builder in h
section-IsTraced (event_checked p) w t = checked-IsTraced p w.checked w t
section-IsTraced event_applied w t = applied-IsTraced w.checked w t.waiting t
section-IsTraced (payload_checked id) w t =
    elim (Bool-cases (is_current id w.service.current_payload_id)) [
      | inl e ↦ rw (e) (record { builder = t.builder; waiting = t.waiting; current = t.current })
      | inr e ↦ rw (e) t
    ]
section-IsTraced (payload_taken v) w t = record {
  builder = taken-IsBuiltFor (Among w.written) v w.service;
  waiting = t.waiting;
  current = t.current;
}

pub sections-IsTraced : (xs : List Section) (w : Shared) → IsTraced w → IsTraced (sections xs w)
unfolding sections
sections-IsTraced [] w t = t
sections-IsTraced (x ∷ xs) w t = sections-IsTraced xs (section x w) (section-IsTraced x w t)
