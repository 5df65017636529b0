-- ===== src/Memory/Relations.antt =====
-- `RelationStore` (aegis/memory/relations.py) and `TypedRelation` (aegis/contracts/memory.py).
use aegis_quant.Common.{
  ℕ, Bool, true, false, ◌&&◌, ◌||◌, List, ◌==◌, leb, ◌≡◌, ◌↔◌, ◌⊎◌, ◌≤◌, ◌<◌, refl, In, select,
  some, Dict, lookup, Call, returned, ◌>>=◌, arith,
}
use aegis_quant.Sealed.Table.{Codec, CodecLaws, SealedError, Row, row_of, keep, read_all}
use aegis_quant.Sealed.Views.{view-keep}
use aegis_quant.Sealed.Reads.{IsSealed, keep-IsSealed, view_iff}

pub data MemoryStatus : Type 0 where
  candidate approved quarantined retired : MemoryStatus

-- `status == "approved"`
unfoldable pub is_approved : MemoryStatus → Bool
is_approved approved = true
is_approved _ = false

-- `content` stands for the fields that the store does not look at.
pub record TypedRelation : Type 0 where
  pub relation_id : ℕ
  pub source_id : ℕ
  pub target_id : ℕ
  pub available_at : ℕ
  pub status : MemoryStatus
  pub content : ℕ

-- The test of `search` on one relation.
unfoldable pub is_match : ℕ → ℕ → TypedRelation → Bool
is_match entity_id as_of r =
    is_approved r.status
    && leb r.available_at as_of
    && (entity_id == r.source_id || entity_id == r.target_id)

module _ (co : Codec TypedRelation) where
  unfoldable pub append : TypedRelation → Dict (Row co) → Call SealedError (Dict (Row co))
  append r store = keep co r.relation_id r store

  unfoldable pub search : ℕ → ℕ → Dict (Row co) → Call SealedError (List TypedRelation)
  search entity_id as_of store = do
    relations ← read_all co store
    returned (select (is_match entity_id as_of) relations)

pub status_iff : (s : MemoryStatus) → (is_approved s ≡ true) ↔ (s ≡ approved)
unfolding is_approved
status_iff candidate = (λ h. cc, λ h. cc)
status_iff approved = (λ h. refl, λ h. refl)
status_iff quarantined = (λ h. cc, λ h. cc)
status_iff retired = (λ h. cc, λ h. cc)

module _ {co : Codec TypedRelation} (laws : CodecLaws co) where
  -- A relation that a search at this time may return.
  abbrev pub IsMatch : ℕ → ℕ → TypedRelation → Type 0
  IsMatch entity_id as_of r =
      (r.status ≡ approved)
      × (r.available_at ≤ as_of)
      × ((entity_id ≡ r.source_id) ⊎ (entity_id ≡ r.target_id))

  is_match_iff :
      (entity_id as_of : ℕ) (r : TypedRelation)
      → (is_match entity_id as_of r ≡ true) ↔ IsMatch entity_id as_of r
  unfolding is_match
  is_match_iff entity_id as_of r = ground (arith, status_iff r.status)

  -- An append that returns keeps the store sealed, and a search of a sealed store raises nothing
  -- and returns exactly the stored relations that are approved, available by the given time, and
  -- have the entity as their source or target.
  pub search_iff :
      (r : TypedRelation) (store store' : Dict (Row co)) (entity_id as_of : ℕ)
      → IsSealed store
      → append co r store ≡ returned store'
      → IsSealed store'
        × ((rs : List TypedRelation) × (search co entity_id as_of store' ≡ returned rs)
            × ((q : TypedRelation)
                → In q rs ↔ (
                    ((k : ℕ) × (lookup k store' ≡ some (row_of co q)))
                    × IsMatch entity_id as_of q)))
  unfolding append search read_all
  search_iff r store store' entity_id as_of h e =
      let h' = keep-IsSealed laws r.relation_id r store store' e h in
      let (rs, read, exact) = view_iff laws (is_match entity_id as_of) store' h' in
      (
        h',
        (
          rs,
          read,
          λ q.
              let (into, out) = exact q in
              let (test, back) = is_match_iff entity_id as_of q in
              (λ i. ((into i).0, test (into i).1), λ i. out (i.0, back i.1)),
        ),
      )

  -- Point in time: appending a relation that becomes available after a time leaves every search as
  -- of that time as it was.
  pub search-append :
      (r : TypedRelation) (store store' : Dict (Row co)) (entity_id as_of : ℕ)
      → append co r store ≡ returned store'
      → as_of < r.available_at
      → search co entity_id as_of store' ≡ search co entity_id as_of store
  unfolding append search read_all is_match
  search-append r store store' entity_id as_of e later =
      view-keep laws (is_match entity_id as_of) r.relation_id r store store' e
        (ground (arith, later))
