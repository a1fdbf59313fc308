-- ===== src/Flashblocks/Service/Undisturbed.antt =====
-- When the payload for an id is made of flashblocks for that id alone
-- (crates/rollup-boost/src/flashblocks/service.rs).
use rollup_boost.Prelude.{
  true, false, List, [], ◌∷◌, Option, none, some, All, ◌≡◌, refl, ◌⊎◌, inl, inr, nat_eq, Bool-cases,
  subst, ok,
}
use rollup_boost.Engine.{PayloadId}
use rollup_boost.Payload.{PayloadVersion, OpExecutionPayloadEnvelope}
use rollup_boost.Flashblocks.{FlashblocksPayloadV1}
use rollup_boost.Flashblocks.Assembly.{extend_all}
use rollup_boost.Flashblocks.Service.{
  new, take_best_payload, reset_builder, accepts_event, is_current,
}
use rollup_boost.Flashblocks.Service.Locks.{
  Section, id_written, builder_reset, event_checked, event_applied, payload_checked, payload_taken,
  Shared, fresh, section, sections, check_next, apply_checked,
}
use rollup_boost.Flashblocks.Service.Provenance.{
  IsBuiltFor, HasBlock, reset-IsBuiltFor, taken-IsBuiltFor, applied-IsBuiltFor, taken-HasBlock,
  more_ids, OptionFor, Among, accepted_current, current_is,
}
use rollup_boost.Flashblocks.Service.Traced.{applied_current}

-- No id is written while a flashblock waits between its two locks, and between the two locks of an
-- update no flashblock and no request is checked.
abbrev pub IsClear : Section → Shared → Type 0
IsClear (id_written id) w = w.checked ≡ none
IsClear (event_checked p) w = w.resetting ≡ false
IsClear (payload_checked id) w = w.resetting ≡ false
IsClear _ w = Unit {0}

abbrev pub AreClear : List Section → Shared → Type 0
AreClear [] w = Unit {0}
AreClear (x ∷ xs) w = IsClear x w × AreClear xs (section x w)

abbrev Current : Shared → PayloadId → Type 0
Current w id = w.service.current_payload_id ≡ some id

-- Everything is for the current id, or an update is between its locks.
abbrev IsSettled : Shared → Type 0
IsSettled w =
    IsBuiltFor (Current w) w.service.best_payload
    × OptionFor (Current w) w.checked
    × All (Current w) w.asked

abbrev IsOwn : Shared → Type 0
IsOwn w = ((w.resetting ≡ true) × (w.checked ≡ none)) ⊎ IsSettled w

settled : (w : Shared) → w.resetting ≡ false → IsOwn w → IsSettled w
settled w h (inl (k, _)) = absurd cc
settled w h (inr s) = s

reset-IsSettled :
    (w : Shared) → OptionFor (Current w) w.checked → IsSettled (section builder_reset w)
unfolding section reset_builder
reset-IsSettled w c = (reset-IsBuiltFor (Current w) w.service, c, tt)

checked-IsSettled :
    (p : FlashblocksPayloadV1) (o : Option FlashblocksPayloadV1) (w : Shared)
    → IsSettled w
    → IsSettled (check_next p o w)
checked-IsSettled p (some q) w s = s
checked-IsSettled p none w (b, c, a) = elim (Bool-cases (accepts_event p w.service)) [
  | inl e ↦ rw (e) (b, accepted_current p w.service e, a)
  | inr e ↦ rw (e) (b, c, a)
]

applied-IsSettled :
    (o : Option FlashblocksPayloadV1) (w : Shared)
    → OptionFor (Current w) o
    → IsSettled w
    → IsSettled (apply_checked o w)
applied-IsSettled none w c s = s
applied-IsSettled (some p) w c (b, _, a) =
    let same = applied_current p w.service in
    (rw same (applied-IsBuiltFor (Current w) p w.service c b), tt, rw same a)

asked-IsSettled :
    (id : PayloadId) (w : Shared) → IsSettled w → IsSettled (section (payload_checked id) w)
unfolding section
asked-IsSettled id w (b, c, a) = elim (Bool-cases (is_current id w.service.current_payload_id)) [
  | inl e ↦ rw (e) (b, c, (current_is id w.service.current_payload_id e, a))
  | inr e ↦ rw (e) (b, c, a)
]

waiting-IsOwn :
    (o : Option FlashblocksPayloadV1) (w : Shared)
    → w.checked ≡ none
    → w.resetting ≡ true
    → IsOwn (apply_checked o w)
waiting-IsOwn none w e k = inl (k, e)
waiting-IsOwn (some p) w e k = inl (k, refl)

section-IsOwn : (x : Section) (w : Shared) → IsClear x w → IsOwn w → IsOwn (section x w)
unfolding section take_best_payload
section-IsOwn (id_written id) w c i = inl (refl, c)
section-IsOwn builder_reset w c (inl (_, e)) = inr (reset-IsSettled w (rw e tt))
section-IsOwn builder_reset w c (inr s) = inr (reset-IsSettled w s.1)
section-IsOwn (event_checked p) w c i = inr (checked-IsSettled p w.checked w (settled w c i))
section-IsOwn event_applied w c (inl (k, e)) = waiting-IsOwn w.checked w e k
section-IsOwn event_applied w c (inr s) = inr (applied-IsSettled w.checked w s.1 s)
section-IsOwn (payload_checked id) w c i = inr (asked-IsSettled id w (settled w c i))
section-IsOwn (payload_taken v) w c (inl h) = inl h
section-IsOwn (payload_taken v) w c (inr (b, o, a)) =
    inr (taken-IsBuiltFor (Current w) v w.service, o, a)

sections-IsOwn : (xs : List Section) (w : Shared) → AreClear xs w → IsOwn w → IsOwn (sections xs w)
unfolding sections
sections-IsOwn [] w c i = i
sections-IsOwn (x ∷ xs) w (c, cs) i = sections-IsOwn xs (section x w) cs (section-IsOwn x w c i)

fresh-IsOwn : IsOwn fresh
unfolding fresh new extend_all
fresh-IsOwn = inr (([], refl, tt), tt, tt)

asked-Current :
    (w : Shared) (id : PayloadId) (ids : List PayloadId)
    → All (Current w) ids
    → Among ids id
    → Current w id
asked-Current w id [] a m = absurd m
asked-Current w id (j ∷ ids) a (inl e) = subst (Current w) e a.0
asked-Current w id (j ∷ ids) a (inr m) = asked-Current w id ids a.1 m

same_id : (w : Shared) (id j : PayloadId) → Current w id → Current w j → j ≡ id
same_id w id j h k = cc

-- In whatever order the sections of updates, flashblocks and requests come, if no id is written while
-- a flashblock is between its two locks, and neither a flashblock nor a request is checked between
-- the two locks of an update: what a request takes that has passed its check since the last update
-- is the block of a gapless stream of flashblocks which were all sent for its id.
pub get_best_payload_own :
    (xs : List Section) (id : PayloadId) (v : PayloadVersion) (e : OpExecutionPayloadEnvelope)
    → AreClear xs fresh
    → (sections xs fresh).resetting ≡ false
    → Among (sections xs fresh).asked id
    → (take_best_payload v (sections xs fresh).service).0 ≡ ok e
    → HasBlock (λ j. j ≡ id) v e
get_best_payload_own xs id v e c r m h =
    let w = sections xs fresh in
    let (b, _, a) = settled w r (sections-IsOwn xs fresh c fresh-IsOwn) in
    let own = asked-Current w id w.asked a m in
    taken-HasBlock (λ j. j ≡ id) v e w.service
      (more_ids (Current w) (λ j. j ≡ id) w.service.best_payload (λ j k. same_id w id j own k) b) h
