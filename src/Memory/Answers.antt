-- ===== src/Memory/Answers.antt =====
-- What `search` and `snapshot` of `LocalMemoryBackend` (aegis/memory/local_backend.py) answer.
use aegis_quant.Common.{
  ℕ, ◌<◌, Bool, true, false, ◌&&◌, Option, none, some, List, [], ◌∷◌, select, map, take, ltb, leb,
  ◌≡◌, refl, subst, sym, ap, ◌∙◌, inl, inr, Bool-cases, Option-cases, Call, Call-cases, returned,
  raised, ◌>>=◌, arith,
}
use aegis_quant.Common.Sort.{sort_by}
use aegis_quant.Num.{FloatOps}
use aegis_quant.Evidence.Records.{Numbers}
use aegis_quant.Evidence.Ledger.{EvidenceCase}
use aegis_quant.Memory.Relations.{is_approved}
use aegis_quant.Memory.Records.{MemoryCandidate, MemoryGovernanceDecision, MemoryItem, MemoryQuery}
use aegis_quant.Memory.Backend.{ItemRow, Backend, new_item, decide}
use aegis_quant.Memory.Governance.{decide-parts}
use aegis_quant.Memory.Versions.{new_item-time}
use aegis_quant.Memory.Retrieval.{
  Scores, MemoryHit, MemorySnapshotEntry, MemorySnapshot, is_current, is_eligible, ranks_before,
  hit_of, entry_of, entry_before, row_before, place_row, sort_rows, read_items, items, search,
  snapshot,
}
use aegis_quant.Sealed.Table.{Codec, CodecLaws, SealedError, row_of, read_row}
use aegis_quant.Sealed.Laws.{read_row-row_of}

module _ {fl : FloatOps} where
  -- The items that a test selects, of items that are read.
  abbrev selected :
      (MemoryItem fl → Bool)
      → Call SealedError (List (MemoryItem fl))
      → Call SealedError (List (MemoryItem fl))
  selected p (returned ms) = returned (select p ms)
  selected p (raised why) = raised why

  more :
      (p : MemoryItem fl → Bool) (m : MemoryItem fl) (r s : Call SealedError (List (MemoryItem fl)))
      → selected p r ≡ selected p s
      → selected p (do ms ← r; returned (m ∷ ms)) ≡ selected p (do ms ← s; returned (m ∷ ms))
  more p m (returned xs) (returned ys) e = elim (Bool-cases (p m)) [
    | inl hit ↦ rw hit (cc (e))
    | inr miss ↦ rw miss e
  ]
  more p m (returned xs) (raised why) e = absurd (cc (e))
  more p m (raised why) (returned ys) e = absurd (cc (e))
  more p m (raised why) (raised other) e = e

  skip :
      (p : MemoryItem fl → Bool) (m : MemoryItem fl) (r : Call SealedError (List (MemoryItem fl)))
      → p m ≡ false
      → selected p (do ms ← r; returned (m ∷ ms)) ≡ selected p r
  skip p m (returned ms) miss = rw miss refl
  skip p m (raised why) miss = refl

  -- What a search makes of the items that it selects.
  abbrev answer :
      Scores fl
      → MemoryQuery
      → Call SealedError (List (MemoryItem fl))
      → Call SealedError (List (MemoryHit fl))
  answer sc q m = do ms ← m; returned (take q.top_k (sort_by ranks_before (map (hit_of sc q) ms)))

  abbrev stamped :
      (ℕ → List MemorySnapshotEntry → ℕ)
      → ℕ
      → Call SealedError (List (MemoryItem fl))
      → Call SealedError MemorySnapshot
  stamped digest as_of m = do
    ms ← m
    let entries = sort_by entry_before (map entry_of ms)
    returned (record { as_of = as_of; entries = entries; content_hash = digest as_of entries })

  is_current-early :
      (as_of : ℕ) (m : MemoryItem fl) → as_of < m.available_at → is_current as_of m ≡ false
  unfolding is_current
  is_current-early as_of m h =
      early (is_approved m.status) (leb m.available_at as_of)
        (elim m.expires_at as (λ _. Bool) [ none ↦ true | some t ↦ ltb as_of t ])
        (ground (arith, h))
    where
      early : (a b c : Bool) → b ≡ false → (a && b && c) ≡ false
      early a b c e = ground (arith, e)

module _ {nu : Numbers} {cc' : Codec (MemoryCandidate nu.fl)} {ic : Codec (MemoryItem nu.fl)}
    {ec : Codec (EvidenceCase nu)} where
  place_row-selected :
      (p : MemoryItem nu.fl → Bool) (x : ItemRow nu cc' ic ec) (m : MemoryItem nu.fl)
      (rows : List (ItemRow nu cc' ic ec))
      → read_row ic x.row ≡ returned m
      → p m ≡ false
      → selected p (read_items (place_row x rows)) ≡ selected p (read_items rows)
  unfolding place_row read_items
  place_row-selected p x m [] read miss = rw (read, miss) refl
  place_row-selected p x m (y ∷ ys) read miss = elim (Bool-cases (row_before x y)) [
    | inl first ↦ rw (first, read) (skip p m (read_items (y ∷ ys)) miss)
    | inr later ↦ rw later (elim (Call-cases (read_row ic y.row)) [
      | inl (why, bad) ↦ rw bad refl
      | inr (a, good) ↦ rw good (
          more p a (read_items (place_row x ys)) (read_items ys)
            (place_row-selected p x m ys read miss))
    ])
  ]

  search-selected :
      (sc : Scores nu.fl) (q : MemoryQuery) (b : Backend nu cc' ic ec)
      → search sc q b ≡ answer sc q (selected (is_eligible q) (items b))
  unfolding search
  search-selected sc q b = elim (Call-cases (items b)) [
    | inl (why, bad) ↦ rw bad refl
    | inr (ms, good) ↦ rw good refl
  ]

  snapshot-selected :
      (digest : ℕ → List MemorySnapshotEntry → ℕ) (as_of : ℕ) (b : Backend nu cc' ic ec)
      → snapshot digest as_of b ≡ stamped digest as_of (selected (is_current as_of) (items b))
  unfolding snapshot
  snapshot-selected digest as_of b = elim (Call-cases (items b)) [
    | inl (why, bad) ↦ rw bad refl
    | inr (ms, good) ↦ rw good refl
  ]

  decide-selected :
      (laws : CodecLaws ic) (d : MemoryGovernanceDecision) (b : Backend nu cc' ic ec)
      (p : Option (MemoryItem nu.fl) × Backend nu cc' ic ec) (t : MemoryItem nu.fl → Bool)
      → ((m : MemoryItem nu.fl) → m.available_at ≡ d.decided_at → t m ≡ false)
      → decide nu cc' ic ec d b ≡ returned p
      → selected t (items p.1) ≡ selected t (items b)
  unfolding items sort_rows
  decide-selected laws d b p t later e =
      let (c, found, own, fresh, approval, after) = decide-parts d b p e in
      let (_, _, _, _, rows) = after in
      elim (Option-cases (new_item nu cc' ic ec d c b)) [
        | inl nothing ↦ ap (λ xs. selected t (read_items (sort_rows xs))) (rw nothing at rows)
        | inr (m, made) ↦
            ap (λ xs. selected t (read_items (sort_rows xs))) (rw made at rows)
            ∙ place_row-selected t
                (record { memory_id = m.memory_id; version = m.version; row = row_of ic m }) m
                (sort_rows b.items) (read_row-row_of laws m) (later m (new_item-time d c b m made))
      ]

  -- No look-ahead: a decision that goes through, whatever its verdict, leaves the answer of every
  -- search and every snapshot as of a time before it as it was, also one that raises.
  pub decide-search :
      (laws : CodecLaws ic) (d : MemoryGovernanceDecision) (b : Backend nu cc' ic ec)
      (p : Option (MemoryItem nu.fl) × Backend nu cc' ic ec) (sc : Scores nu.fl) (q : MemoryQuery)
      (digest : ℕ → List MemorySnapshotEntry → ℕ)
      → decide nu cc' ic ec d b ≡ returned p
      → q.as_of < d.decided_at
      → (search sc q p.1 ≡ search sc q b)
        × (snapshot digest q.as_of p.1 ≡ snapshot digest q.as_of b)
  unfolding is_eligible
  decide-search laws d b p sc q digest e past =
      let early : (m : MemoryItem nu.fl)
          → m.available_at ≡ d.decided_at
          → is_current q.as_of m ≡ false =
        λ m same. is_current-early q.as_of m (subst (λ t. q.as_of < t) (sym same) past) in
      (
        search-selected sc q p.1
            ∙ ap (answer sc q)
                (decide-selected laws d b p (is_eligible q) (λ m same. rw (early m same) refl) e)
            ∙ sym (search-selected sc q b),
        snapshot-selected digest q.as_of p.1
            ∙ ap (stamped digest q.as_of) (decide-selected laws d b p (is_current q.as_of) early e)
            ∙ sym (snapshot-selected digest q.as_of b),
      )
