-- ===== src/Payload/Trace.antt =====
-- `PayloadTraceContext` of crates/rollup-boost-types/src/payload.rs: which payload ids were handed
-- out under which parent block, and whether the builder works on them. Both tables are caches of
-- the moka library; their operations are a parameter.
pub mod History
use rollup_boost.Prelude.{
  ℕ, Bool, false, Option, none, some, List, [], ◌∷◌, ◌++◌, ◌≡◌, ◌⊎◌, Eq, ◌==◌, nat_eq,
  if◌then◌else◌,
}
use rollup_boost.Engine.{B256, PayloadId}

-- What moka documents: a bounded map that may drop entries when one is inserted, and in which a
-- read finds the last value written under its key, or nothing.
pub record CacheOps (K V : Type 0) ⦃e : Eq K⦄ : Type 1 where
  pub Cache : Type 0
  pub empty : Cache
  pub get : K → Cache → Option V
  pub insert : K → V → Cache → Cache
  pub remove : K → Cache → Cache
  pub get-empty : (k : K) → get k empty ≡ none
  pub get-insert :
      (k j : K) (v : V) (c : Cache)
      → (get j (insert k v c) ≡ none)
        ⊎ (get j (insert k v c) ≡ (if k == j then some v else get j c))
  pub get-remove : (k j : K) (c : Cache) → get j (remove k c) ≡ (if k == j then none else get j c)

pub record PayloadTrace : Type 0 where
  pub builder_has_payload : Bool
  pub trace_id : Option ℕ

pub record PayloadTraceContext (H I : Type 0) : Type 0 where
  pub block_hash_to_payload_ids : H
  pub payload_id : I

-- `and_upsert_with` on the entry of a block hash.
abbrev push_id : PayloadId → Option (List PayloadId) → List PayloadId
push_id id none = id ∷ []
push_id id (some ids) = ids ++ (id ∷ [])

abbrev has_payload : Option PayloadTrace → Bool
has_payload none = false
has_payload (some t) = t.builder_has_payload

abbrev trace_of : Option PayloadTrace → Option ℕ
trace_of none = none
trace_of (some t) = t.trace_id

abbrev collect : Option ℕ → List ℕ → List ℕ
collect none ts = ts
collect (some t) ts = t ∷ ts

module _ (by_hash : CacheOps B256 (List PayloadId)) (by_id : CacheOps PayloadId PayloadTrace) where
  abbrev pub Context : Type 0
  Context = PayloadTraceContext by_hash.Cache by_id.Cache

  unfoldable pub new : Context
  new = record { block_hash_to_payload_ids = by_hash.empty; payload_id = by_id.empty }

  unfoldable pub store : PayloadId → B256 → Bool → Option ℕ → Context → Context
  store id parent_hash builder_has_payload trace c = record {
    block_hash_to_payload_ids =
        by_hash.insert parent_hash (push_id id (by_hash.get parent_hash hashes)) hashes;
    payload_id = by_id.insert id trace' c.payload_id;
  }
    where
      hashes : by_hash.Cache
      hashes = c.block_hash_to_payload_ids

      trace' : PayloadTrace
      trace' = record { builder_has_payload = builder_has_payload; trace_id = trace }

  unfoldable pub has_builder_payload : PayloadId → Context → Bool
  has_builder_payload id c = has_payload (by_id.get id c.payload_id)

  unfoldable pub trace_id : PayloadId → Context → Option ℕ
  trace_id id c = trace_of (by_id.get id c.payload_id)

  -- The `filter_map` over the ids of one parent hash.
  unfoldable pub trace_ids : List PayloadId → Context → List ℕ
  unfolding trace_id
  trace_ids [] c = []
  trace_ids (id ∷ ids) c = collect (trace_id id c) (trace_ids ids c)

  unfoldable pub trace_ids_from_parent_hash : B256 → Context → Option (List ℕ)
  unfolding trace_ids
  trace_ids_from_parent_hash h c = elim (by_hash.get h c.block_hash_to_payload_ids) [
    | none ↦ none
    | some ids ↦ some (trace_ids ids c)
  ]

  unfoldable pub remove_ids : List PayloadId → by_id.Cache → by_id.Cache
  remove_ids [] c = c
  remove_ids (id ∷ ids) c = remove_ids ids (by_id.remove id c)

  unfoldable pub remove_by_parent_hash : B256 → Context → Context
  unfolding remove_ids
  remove_by_parent_hash h c = elim (by_hash.get h c.block_hash_to_payload_ids) [
    | none ↦ c
    | some ids ↦ record {
      block_hash_to_payload_ids = by_hash.remove h c.block_hash_to_payload_ids;
      payload_id = remove_ids ids c.payload_id;
    }
  ]
