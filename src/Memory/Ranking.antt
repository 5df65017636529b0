-- ===== src/Memory/Ranking.antt =====
-- What `search` of `LocalMemoryBackend` (aegis/memory/local_backend.py) finds, and in which order.
use aegis_quant.Common.{
  ℕ, ◌≤◌, ◌<◌, true, false, not, List, [], ◌∷◌, select, In-select, map, length, length-take-le,
  take, take-In, In-take, In, ltb, if◌then◌else◌, ◌==◌, ◌≡◌, refl, subst, sym, ap, ◌⊎◌, inl, inr,
  Bool-cases, returned, >>=-returned, arith,
}
use aegis_quant.Common.Sort.{sort_by, sort_by_iff, sort_by-IsRanked, take-IsRanked, IsRanked}
use aegis_quant.Num.{FloatOps}
use aegis_quant.Num.Laws.{FloatLaws}
use aegis_quant.Evidence.Records.{Numbers}
use aegis_quant.Evidence.Ledger.{EvidenceCase}
use aegis_quant.Memory.Records.{MemoryCandidate, MemoryItem, MemoryQuery}
use aegis_quant.Memory.Backend.{Backend}
use aegis_quant.Memory.Retrieval.{
  Scores, MemoryHit, is_eligible, ranks_before, hit_of, items, search,
}
use aegis_quant.Sealed.Table.{Codec}
use aegis_quant.Memory.Eligible.{IsAdmitted, eligible_iff}

-- The order by ID and version of two hits of equal score.
ids_forward :
    (x y v w : ℕ)
    → (if not (x == y) then ltb x y else ltb w v) ≡ true
    → (x < y) ⊎ ((x ≡ y) × (w ≤ v))
ids_forward x y v w e = ground (arith, e)

ids_upward :
    (x y v w : ℕ)
    → (if not (y == x) then ltb y x else ltb v w) ≡ false
    → (x < y) ⊎ ((x ≡ y) × (w ≤ v))
ids_upward x y v w e = ground (arith, e)

module _ {fl : FloatOps} where
  -- A hit ranks ahead of another: the negated score of the second is not less than its own, and
  -- where the two are equal its memory ID is lower, or the same with no lower a version.
  abbrev pub RanksAhead : MemoryHit fl → MemoryHit fl → Type 0
  RanksAhead a b =
      (fl.lt (fl.neg b.score) (fl.neg a.score) ≡ false)
      × (fl.eq (fl.neg b.score) (fl.neg a.score) ≡ true
          → (a.item.memory_id < b.item.memory_id)
            ⊎ ((a.item.memory_id ≡ b.item.memory_id) × (b.item.version ≤ a.item.version)))

  ranks_before-upward :
      (laws : FloatLaws fl) (a b : MemoryHit fl) → ranks_before b a ≡ false → RanksAhead a b
  unfolding ranks_before
  ranks_before-upward laws a b e = elim (Bool-cases (fl.eq (fl.neg b.score) (fl.neg a.score))) [
    | inl same ↦ (
      laws.not_lt_of_eq (fl.neg b.score) (fl.neg a.score) same,
      λ _.
          ids_upward a.item.memory_id b.item.memory_id a.item.version b.item.version (rw same at e),
    )
    | inr other ↦ (rw other at e, λ same. absurd (cc (same, other)))
  ]

  ranks_before-forward :
      (laws : FloatLaws fl) (a b : MemoryHit fl) → ranks_before a b ≡ true → RanksAhead a b
  unfolding ranks_before
  ranks_before-forward laws a b e = elim (Bool-cases (fl.eq (fl.neg a.score) (fl.neg b.score))) [
    | inl same ↦ (
      laws.not_lt_of_eq (fl.neg b.score) (fl.neg a.score)
          (laws.eq_sym (fl.neg a.score) (fl.neg b.score) same),
      λ _.
          ids_forward a.item.memory_id b.item.memory_id a.item.version b.item.version
            (rw same at e),
    )
    | inr other ↦
        let less : fl.lt (fl.neg a.score) (fl.neg b.score) ≡ true = rw other at e in
        (
          elim (Bool-cases (fl.lt (fl.neg b.score) (fl.neg a.score))) [
            | inl back ↦ absurd (
                cc (
                  laws.le_of_lt (fl.neg b.score) (fl.neg a.score) back,
                  laws.not_le_of_lt (fl.neg a.score) (fl.neg b.score) less,
                ))
            | inr miss ↦ miss
          ],
          λ same. absurd (cc (laws.eq_sym (fl.neg b.score) (fl.neg a.score) same, other)),
        )
  ]

  map-In :
      (sc : Scores fl) (q : MemoryQuery) (g : MemoryHit fl) (ms : List (MemoryItem fl))
      → In g (map (hit_of sc q) ms)
      → (m : MemoryItem fl) × In m ms × (g ≡ hit_of sc q m)
  map-In sc q g [] e = absurd e
  map-In sc q g (m ∷ ms) e = elim e [
    | inl same ↦ (m, inl refl, same)
    | inr rest ↦ let (n, found, same) = map-In sc q g ms rest in (n, inr found, same)
  ]

  In-map :
      (sc : Scores fl) (q : MemoryQuery) (m : MemoryItem fl) (ms : List (MemoryItem fl))
      → In m ms
      → In (hit_of sc q m) (map (hit_of sc q) ms)
  In-map sc q m [] e = absurd e
  In-map sc q m (n ∷ ms) (inl same) = inl (ap (hit_of sc q) same)
  In-map sc q m (n ∷ ms) (inr rest) = inr (In-map sc q m ms rest)

module _ {nu : Numbers} {cc' : Codec (MemoryCandidate nu.fl)} {ic : Codec (MemoryItem nu.fl)}
    {ec : Codec (EvidenceCase nu)} where
  -- What a search returns has at most top_k hits; each is the hit of an item of the store that is
  -- approved, was available at the query's time, has not expired by then and passes the query's
  -- filters; every such item of the store has its hit, unless the hits are top_k already; and of
  -- two neighbouring hits the first ranks ahead of the second.
  pub search-IsComplete :
      (laws : FloatLaws nu.fl) (sc : Scores nu.fl) (q : MemoryQuery) (b : Backend nu cc' ic ec)
      (hs : List (MemoryHit nu.fl))
      → search sc q b ≡ returned hs
      → (ms : List (MemoryItem nu.fl)) × (items b ≡ returned ms)
        × (length hs ≤ q.top_k)
        × ((h : MemoryHit nu.fl)
            → In h hs
            → (m : MemoryItem nu.fl) × In m ms × (h ≡ hit_of sc q m) × IsAdmitted q m)
        × ((m : MemoryItem nu.fl)
            → In m ms
            → IsAdmitted q m
            → In (hit_of sc q m) hs ⊎ (length hs ≡ q.top_k))
        × IsRanked RanksAhead hs
  unfolding search
  search-IsComplete laws sc q b hs e =
      let (ms, read, e') = >>=-returned (items b) _ e in
      let eligible = map (hit_of sc q) (select (is_eligible q) ms) in
      let all_hits = sort_by ranks_before eligible in
      let same : take q.top_k all_hits ≡ hs = cc (e') in
      (
        ms,
        read,
        subst (λ xs. length xs ≤ q.top_k) same (length-take-le q.top_k all_hits),
        λ h inside.
            let listed = take-In h q.top_k all_hits (subst (In h) (sym same) inside) in
            let (m, there, mine) =
              map-In sc q h (select (is_eligible q) ms)
                ((sort_by_iff ranks_before h eligible).0 listed) in
            let (stored, passed) = (In-select (is_eligible q) m ms).0 there in
            (m, stored, mine, (eligible_iff q m).0 passed),
        λ m inside admitted.
            let chosen =
              (In-select (is_eligible q) m ms).1 (inside, (eligible_iff q m).1 admitted) in
            subst (λ xs. In (hit_of sc q m) xs ⊎ (length xs ≡ q.top_k)) same
              (In-take (hit_of sc q m) q.top_k all_hits (
                (sort_by_iff ranks_before (hit_of sc q m) eligible).1
                  (In-map sc q m (select (is_eligible q) ms) chosen))),
        subst (IsRanked RanksAhead) same (
            take-IsRanked RanksAhead q.top_k all_hits (
              sort_by-IsRanked ranks_before RanksAhead (ranks_before-forward laws)
                (ranks_before-upward laws) eligible)),
      )
