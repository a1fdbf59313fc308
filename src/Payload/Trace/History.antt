-- ===== src/Payload/Trace/History.antt =====
-- The trace context against the history of its writes
-- (crates/rollup-boost-types/src/payload.rs).
use rollup_boost.Prelude.{
  ℕ, Bool, true, false, Option, none, some, List, [], ◌∷◌, ◌≡◌, refl, ◌⊎◌, inl, inr, ◌==◌, nat_eq,
  if◌then◌else◌, Option-cases, arith, Any,
}
use rollup_boost.Engine.{B256, PayloadId}
use rollup_boost.Payload.Trace.{
  CacheOps, PayloadTrace, Context, new, store, has_builder_payload, trace_id, remove_ids,
  remove_by_parent_hash,
}

-- A write to the context, as the server makes them.
pub data Write : Type 0 where
  stored : PayloadId → B256 → Bool → Option ℕ → Write
  removed : B256 → Write

-- What the last `stored` for an id said, newest write first.
abbrev pub last_stored : PayloadId → List Write → Option PayloadTrace
last_stored id [] = none
last_stored id (stored j h b t ∷ ws) =
    if j == id then some (record { builder_has_payload = b; trace_id = t }) else last_stored id ws
last_stored id (removed h ∷ ws) = last_stored id ws

module _ (by_hash : CacheOps B256 (List PayloadId)) (by_id : CacheOps PayloadId PayloadTrace) where
  unfoldable pub run : List Write → Context by_hash by_id
  run [] = new by_hash by_id
  run (stored id h b t ∷ ws) = store by_hash by_id id h b t (run ws)
  run (removed h ∷ ws) = remove_by_parent_hash by_hash by_id h (run ws)

  get-remove_ids :
      (ids : List PayloadId) (id : PayloadId) (c : by_id.Cache)
      → (by_id.get id (remove_ids by_hash by_id ids c) ≡ none)
        ⊎ (by_id.get id (remove_ids by_hash by_id ids c) ≡ by_id.get id c)
  unfolding remove_ids
  get-remove_ids [] id c = inr refl
  get-remove_ids (j ∷ ids) id c =
      ground (arith, get-remove_ids ids id (by_id.remove j c), by_id.get-remove j id c)

  get-remove_by_parent_hash :
      (h : B256) (id : PayloadId) (c : Context by_hash by_id)
      → let c' = remove_by_parent_hash by_hash by_id h c in
        (by_id.get id c'.payload_id ≡ none)
        ⊎ (by_id.get id c'.payload_id ≡ by_id.get id c.payload_id)
  unfolding remove_by_parent_hash
  get-remove_by_parent_hash h id c =
      elim (Option-cases (by_hash.get h c.block_hash_to_payload_ids)) [
        | inl e ↦ rw (e, remove_by_parent_hash) (inr refl)
        | inr (ids, e) ↦ rw (e, remove_by_parent_hash) (get-remove_ids ids id c.payload_id)
      ]

  get-run :
      (id : PayloadId) (ws : List Write)
      → (by_id.get id (run ws).payload_id ≡ none)
        ⊎ (by_id.get id (run ws).payload_id ≡ last_stored id ws)
  unfolding run new store
  get-run id [] = inl (by_id.get-empty id)
  get-run id (stored j h b t ∷ ws) = ground (
    arith,
    by_id.get-insert j id (record { builder_has_payload = b; trace_id = t }) (run ws).payload_id,
    get-run id ws,
  )
  get-run id (removed h ∷ ws) =
      ground (arith, get-remove_by_parent_hash h id (run ws), get-run id ws)

  -- Whatever was stored and removed, and whatever the caches dropped: if the context says that the
  -- builder has a payload, then the last store for that payload id said so.
  pub has_builder_payload-run :
      (id : PayloadId) (ws : List Write)
      → has_builder_payload by_hash by_id id (run ws) ≡ true
      → (t : PayloadTrace) × (last_stored id ws ≡ some t) × (t.builder_has_payload ≡ true)
  unfolding has_builder_payload
  has_builder_payload-run id ws h = ground (arith, get-run id ws)

  removed_ids :
      (ids : List PayloadId) (id : PayloadId) (c : by_id.Cache)
      → Any (λ j. j ≡ id) ids
      → by_id.get id (remove_ids by_hash by_id ids c) ≡ none
  unfolding remove_ids
  removed_ids [] id c m = absurd m
  removed_ids (j ∷ ids) id c (inl e) =
      ground (arith, get-remove_ids ids id (by_id.remove j c), by_id.get-remove j id c)
  removed_ids (j ∷ ids) id c (inr m) = removed_ids ids id (by_id.remove j c) m

  -- Removing a parent hash forgets the hash and each payload id that was stored under it: the
  -- builder counts as having none of them, and they have no trace.
  pub remove_by_parent_hash-forgets :
      (h : B256) (c : Context by_hash by_id) (ids : List PayloadId) (id : PayloadId)
      → by_hash.get h c.block_hash_to_payload_ids ≡ some ids
      → Any (λ j. j ≡ id) ids
      → let c' = remove_by_parent_hash by_hash by_id h c in
        (by_hash.get h c'.block_hash_to_payload_ids ≡ none)
        × (has_builder_payload by_hash by_id id c' ≡ false)
        × (trace_id by_hash by_id id c' ≡ none)
  unfolding remove_by_parent_hash has_builder_payload trace_id
  remove_by_parent_hash-forgets h c ids id e m =
      rw (e, remove_by_parent_hash)
        (ground (
          arith,
          removed_ids ids id c.payload_id m,
          by_hash.get-remove h h c.block_hash_to_payload_ids,
        ))
